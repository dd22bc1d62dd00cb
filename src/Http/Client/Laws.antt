-- ===== src/Http/Client/Laws.antt =====
-- What the theorems rely on of an HTTP client.
use gocloud_ext.Common.{ℕ, ℤ, suc, ◌≡◌}
use gocloud_ext.Http.{Request}
use gocloud_ext.Http.Client.{Client}

-- A count of the requests that were sent, which waiting does not change.
pub record Counts (c : Client) : Type 0 where
  pub sent : c.State → ℕ
  pub send-sent : (req : Request) (s : c.State) → sent (c.send req s).1 ≡ suc (sent s)
  pub pause-sent : (s : c.State) → sent (c.pause s).1 ≡ sent s
  pub sleep-sent : (d : ℤ) (s : c.State) → sent (c.sleep d s).1 ≡ sent s
