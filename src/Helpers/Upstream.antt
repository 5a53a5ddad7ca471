-- ===== src/Helpers/Upstream.antt =====
-- helpers/helpers.go: `FetchUpstream` and `ProcessResponse`, and the error of helpers/errors.go.
--
-- The agent of fiber is the record `Agent`: whether it accepts a request for a URL with headers, and what
-- the server answers, an error or a status, a body and a response, of which `Peek` is what is read.
use lod.Prelude.{
  ℕ, ◌∷◌, ◌++◌, List, [], Bool, ◌&&◌, ◌||◌, ◌==◌, not, if◌then◌else◌, Result, ok, err, panic,
  Option, none, some, ltb, length,
}
use lod.Prelude.Text.{Text, codes}
use lod.Prelude.Strings.{decimal}
use lod.Packet
use lod.Config.{Header, Proxy}
use lod.Config.Messages.{do_pull_headers, do_delete_headers}
use lod.Cache.Backends.{Stores}
use lod.Cache.{Cache, set_both}
use lod.Web.{Fiber, Reply, write}

pub record ProxyResponse : Type 0 where
  pub code : ℕ
  pub body : List ℕ
  pub resp : Text → Text

pub record Agent : Type 0 where
  pub parses : Text → List Header → Bool
  pub bytes : Text → List Header → Result Text ProxyResponse
  pub blank : Text → Text

-- The response is copied before the request is made.
unfoldable pub fetch_upstream :
    {Opts : Type 0} → Agent → Text → Proxy Opts → Result Text ProxyResponse
fetch_upstream agent tile_url p =
    let return_response = agent.blank in
    if not (agent.parses tile_url p.add_headers)
    then panic
    else elim (agent.bytes tile_url p.add_headers) [
      | ok answer ↦ ok (record { code = answer.code; body = answer.body; resp = return_response })
      | err e ↦ err e
      | panic ↦ panic
    ]

-- `ErrInvalidStatusCode`, or the error of a write.
pub data ResponseError : Type 0 where
  invalid_status_code : ℕ → Text → ResponseError
  write_failed : Text → ResponseError

unfoldable pub response_message : ResponseError → Text
response_message (invalid_status_code code key) =
    codes "resp: got non-2xx status code: "
    ++ (decimal code ++ (codes " for tile at cache key '" ++ (key ++ codes "'")))
response_message (write_failed e) = e

-- The condition on the response of the tile server.
unfoldable pub is_tile : ProxyResponse → Bool
is_tile r = r.code == 204 || (ltb 0 (length r.body) && r.code == 200)

-- What is done if `WriteData` is set, with the error of the write.
unfoldable pub write_data :
    {Opts : Type 0} {f : Fiber} → Proxy Opts → ProxyResponse → Reply f → Reply f × Option Text
write_data {f} p r reply =
    let deleted = record reply { headers = do_delete_headers p f.del_header reply.headers } in
    let reply' = if r.code == 204 then record deleted { status = 204 } else deleted in
    write r.body reply'

module _ {Opts : Type 0} {s : Stores} (sum256 : List ℕ → List ℕ) where
  -- `go payload.Cache.EncodeSet(…)`
  unfoldable pub cache_later : Proxy Opts → Text → ProxyResponse → Cache Opts s → Cache Opts s
  cache_later p key r c =
      let tile = Packet.encode sum256 r.body (do_pull_headers p r.resp []) in
      record c { background = c.background ++ set_both key tile ∷ [] }

  module _ {f : Fiber} where
    -- The return where the write has failed; the tile is cached otherwise.
    unfoldable pub after_write :
        Proxy Opts
        → Text
        → ProxyResponse
        → Option Text
        → Reply f
        → Cache Opts s
        → Reply f × Cache Opts s × Option ResponseError
    after_write p key r none reply c = (reply, cache_later p key r c, none)
    after_write p key r (some e) reply c = (reply, c, some (write_failed e))

    -- `ProcessResponse`: the reply and the cache after it, and its error if there is one.
    unfoldable pub process_response :
        Proxy Opts
        → Text
        → ProxyResponse
        → Bool
        → Reply f
        → Cache Opts s
        → Reply f × Cache Opts s × Option ResponseError
    process_response p key r writes reply c =
        let (reply', failed) = if writes then write_data p r reply else (reply, none) in
        if is_tile r
        then after_write p key r failed reply' c
        else (reply, c, some (invalid_status_code r.code key))
