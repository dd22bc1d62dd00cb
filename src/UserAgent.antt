-- ===== src/UserAgent.antt =====
-- internal/useragent/useragent.go: the transport that appends a product token to the User-Agent of every
-- request. The transport beneath it is a parameter; a request is that of Http.
use gocloud_ext.Common.{Bytes, false, ◌++◌, Option, none, some, codes, eqb, ◌≡◌, refl}
use gocloud_ext.Http.{Request, get_header, set_header}

abbrev pub user_agent : Bytes
user_agent = codes "User-Agent"

abbrev pub user_agent_string : Bytes → Bytes
user_agent_string api = codes "gocloud-ext" ++ (codes "/" ++ (api ++ (codes "/" ++ codes "0.1.0")))

-- The request that RoundTrip passes on.
unfoldable pub tagged_request : Bytes → Request → Request
tagged_request api req = record req {
  header =
      set_header user_agent
        (get_header req.header user_agent ++ (codes " " ++ user_agent_string api)) req.header;
}

-- RoundTrip over the transport beneath
unfoldable pub round_trip : {A : Type 0} → (Request → A) → Bytes → Request → A
unfolding tagged_request
round_trip base api req = base (tagged_request api req)

-- The transport of HTTPClient, over the default one where the client has none.
unfoldable pub http_client :
    {A : Type 0} → (Request → A) → Option (Request → A) → Bytes → Request → A
unfolding round_trip
http_client default none api req = round_trip default api req
http_client default (some base) api req = round_trip base api req

-- Every other header stays.
pub tagged_request-header_ne :
    (api : Bytes) (req : Request) (k : Bytes)
    → eqb user_agent k ≡ false
    → (tagged_request api req).header k ≡ req.header k
unfolding tagged_request
tagged_request-header_ne api req k h = rw h refl

-- The caller's own token stays in front, also where the transport wraps another of its kind.
pub tagged_request-twice :
    (a b : Bytes) (req : Request)
    → get_header (tagged_request b (tagged_request a req)).header user_agent
      ≡ (get_header req.header user_agent ++ (codes " " ++ user_agent_string a))
        ++ (codes " " ++ user_agent_string b)
unfolding tagged_request eqb
tagged_request-twice a b req = refl
