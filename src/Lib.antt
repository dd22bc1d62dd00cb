-- ===== src/Lib.antt =====
-- gocloud-ext: blob drivers for the Go CDK (blob/httpblob, blob/sftpblob) and a package that
-- assembles one blob from parts on any bucket (blob/multipart).
--
-- The files, and the code that they model:
-- - Multipart: blob/multipart/multipart.go. Part, Constraints, ValidatePartNumber, SortParts,
--   CheckPartSizes and ObjectName. int64 is ℤ (Common/Int); sort.Slice is an insertion sort.
-- - Decimal: the part numbers in object names, `%0*d` and strconv.ParseInt. 20 rounds of division
--   are enough for the 19 digits of an int64.
-- - Blob: the bucket of gocloud.dev/blob, which is not part of the repository, as a record of
--   operations. Blob/Laws has the documented behaviour that theorems take as hypotheses;
--   Blob/Memory is a bucket that has it, for the tests. A reader and a listing are the sequences
--   of results that they yield, fixed when they are opened.
-- - Upload: blob/multipart/bucket.go, the uploader that stages parts as objects. Upload/Create is
--   NewUploader and Open, Upload/Stage is UploadPart and ListParts, Upload/Finish is Commit and
--   Abort. A method takes the uploader and the bucket's state and returns its result with the new
--   ones. The JSON codec of the manifest and the bytes of crypto/rand are parameters.
-- - Escape: internal/escape/key.go, the runes that KeyEscape escapes.
-- - Sftp: the errors and reserved names of blob/sftpblob/sftpblob.go, and blob/sftpblob/list.go.
--   Sftp/Emit has the rules for one key (emit, descend, collapses), Sftp/Walk the walk (visit,
--   hasKey, ListPaged). What the server answers to ReadDir is a function of the path that does not
--   change while a page is made. A unit of fuel is a level of directories.
-- - Sftp/Server is the SFTP client as a record of operations, with the documented behaviour as
--   Sftp/Server/Laws and a server in memory for the tests. Sftp/Files (fullPath, commitRename,
--   getAttrs, setAttrs, forKey), Sftp/Reading (Attributes, NewRangeReader), Sftp/Write
--   (NewTypedWriter and the writers) and Sftp/Copies (Copy, Delete) model the rest of
--   blob/sftpblob/sftpblob.go. The bucket's flag posixRenameUnsupported is passed along.
-- - Http: blob/httpblob/httpblob.go and blob/httpblob/attrs.go. Http is the errors and the
--   messages, Http/Client what net/http, the context and gax do, as a record of operations,
--   Http/Paths is escapedPath to newRequest, Http/Retry is `do`, Http/Bodies is sliceBody with
--   what it needs, Http/Reader is the reader, Http/Object is headObject, the sidecars and
--   NewRangeReader, Http/Writes is the writer, Copy and Delete with `move`, copyOne and putAttrs,
--   Http/Propfind is Attributes and stat, Http/Listing the lister and Http/Listing/Walk its walk,
--   in which each level of the tree takes a unit of fuel, and Http/Collections is mkcol and
--   ensureCollections of blob/httpblob/webdav.go. The retries that are left bound the loop of
--   `do`; four units of fuel are enough for the loop of Read, which resumes three times at most.
-- - UserAgent: internal/useragent/useragent.go, the transport that tags requests.
-- - Gcs: blob/multipart/gcsmp/gcsmp.go. Gcs is the client as a record of calls, the uploader and
--   its names, Gcs/Laws what the storage documents, Gcs/Start NewUploader and Open, Gcs/Parts
--   UploadPart and ListParts, Gcs/Compose composeTree, and Gcs/Finish Commit and Abort. A round
--   has at most as many groups as sources and leaves fewer objects, so the count of the sources is
--   fuel enough for both loops.
-- - Azure: blob/multipart/azmp/azmp.go, with the blob's client and base64 as parameters:
--   Azure/Blocks is blockID and partNumber, Azure/Laws what Azure documents of blocks,
--   Azure/Start, Azure/Parts and Azure/Finish the operations.
-- - Metadata: the loop that lowercases metadata keys, which s3mp, gcsmp and azmp share.
-- - S3: blob/multipart/s3mp/s3mp.go, the uploader over an S3 client, which is a record of the five
--   calls. S3/Start is NewUploader and Open, S3/Parts is UploadPart and ListParts, S3/Finish is
--   Commit and Abort. A unit of fuel is a page of ListParts.
--
-- Go strings are lists of bytes (Common/Text), a nil error is `none`, and a pair of a value and an
-- error is a Result. The context (but for what ctx.Err answers in Sftp and Http), the As hooks,
-- the text of error messages and the Close of a reader are not modelled; errors keep the values
-- that their texts show.
--
-- Not modelled: internal/escape/escape.go, which is a copy of a package of go-cloud (what the code
-- uses of it is a parameter); the OpenBucket, As and ErrorAs of blob/sftpblob; OpenBucket of
-- blob/httpblob; the URL openers and registrations; the test harness blob/multipart/mptest.
pub mod Common
pub mod Http
pub mod Multipart
pub mod Blob
pub mod Decimal
pub mod Upload
pub mod UserAgent
pub mod Escape
pub mod Sftp
pub mod S3
pub mod Metadata
pub mod Gcs
pub mod Azure
