-- ===== src/Handlers/Proxy/Faithful.antt =====
-- The handler of tiles (www/handlers/proxy/proxy.go) and what is right for a key.
use lod.Prelude.{
  ℕ, ◌^◌, ◌==◌, ◌<◌, List, [], ◌++◌, Bool, true, if◌then◌else◌, if_both, Bool-cases, length, Result,
  ok, err, panic, ok-injective, Option, none, some, ◌≡◌, ◌⊎◌, inl, inr, refl, sym, subst,
}
use lod.Prelude.Text.{Text, codes}
use lod.Packet
use lod.Packet.{PacketError, TilePacket, Headers, tile_data, headers}
use lod.Packet.RoundTrip.{tile_data-encode_whole}
use lod.Config.{Proxy}
use lod.Config.Messages.{do_delete_headers, do_pull_headers}
use lod.Cache.Backends.{Stores, StoresFrames}
use lod.Cache.{Cache, Fetched, set_both}
use lod.Cache.Faithful.{IsRightPacket, IsFaithful, later-IsFaithful}
use lod.Cache.FaithfulFetch.{IsFaithfulFetch}
use lod.Web.{Fiber, Reply, send_empty, write, written}
use lod.Helpers.Responses.{IsSuccess, is_tile_iff}
use lod.Helpers.Upstream.{
  Agent, ProxyResponse, fetch_upstream, is_tile, write_data, cache_later, after_write,
  process_response,
}
use lod.Handlers.Proxy.{
  Flight, do_flight, Handled, set_headers, panicked, after_body, return_cached_tile, after_process,
  after_flight, after_fetch,
}

-- The tiles that a fetch may give for a key.
abbrev pub IsRightResponse : (Text → List ℕ → Type 0) → Text → Result Text ProxyResponse → Type 0
IsRightResponse Right key (ok r) = IsSuccess r → Right key r.body × (length r.body < 2 ^ 32)
IsRightResponse Right key (err e) = Unit {0}
IsRightResponse Right key panic = Unit {0}

-- The result that the flight hands to a request is right for its key.
abbrev pub IsRightFlight :
    {Opts : Type 0} → (Text → List ℕ → Type 0) → Agent → Proxy Opts → Text → Text → Flight → Type 0
IsRightFlight Right agent p tile_url key flight =
    IsRightResponse Right key (do_flight flight (fetch_upstream agent tile_url p)).0

module _ {Opts : Type 0} {s : Stores} {f : Fiber} (frames : StoresFrames s)
    (sum256 : List ℕ → List ℕ) (sized : (b : List ℕ) → length (sum256 b) ≡ 32)
    (Right : Text → List ℕ → Type 0) (agent : Agent) (p : Proxy Opts) where
  -- Any reply has the status 500 and no body, or a body that is right for the key; and the cache is
  -- faithful.
  pub record Answers (key : Text) (x : Handled Opts s f) : Type 0 where
    pub faithful : IsFaithful sum256 Right x.cache
    pub answer :
        (r : Reply f) → x.reply ≡ ok r → ((r.status ≡ 500) × (r.body ≡ [])) ⊎ Right key r.body

  failed-Answers :
      (key : Text) (c : Cache Opts s) (status : Option Text) (reply : Reply f)
      → IsFaithful sum256 Right c
      → Answers key (record { cache = c; status = status; reply = ok (send_empty 500 reply) })
  failed-Answers key c status reply h = record {
    faithful = h;
    answer = λ r e. rw (← ok-injective e) (inl (refl, refl));
  }

  pub panicked-Answers :
      (key : Text) (c : Cache Opts s) (status : Option Text)
      → IsFaithful sum256 Right c
      → Answers key (panicked c status)
  panicked-Answers key c status h = record { faithful = h; answer = λ r e. absurd (cc) }

  done-Answers :
      (key : Text) (c : Cache Opts s) (status : Option Text) (reply : Reply f)
      → IsFaithful sum256 Right c
      → Right key reply.body
      → Answers key (record { cache = c; status = status; reply = ok reply })
  done-Answers key c status reply h right = record {
    faithful = h;
    answer = λ r e. rw (← ok-injective e) (inr right);
  }

  after_body-Answers :
      (key : Text) (t : TilePacket) (status : Option Text) (reply : Reply f) (failed : Option Text)
      (c : Cache Opts s)
      → IsFaithful sum256 Right c
      → (failed ≡ none → Right key reply.body)
      → Answers key (after_body p t status (reply, failed) c)
  unfolding after_body
  after_body-Answers key t status reply (some e) c h right =
      failed-Answers key c (some (codes ":err-w")) reply h
  after_body-Answers key t status reply none c h right = go (headers t)
    where
      go :
          (x : Result PacketError Headers)
          → Answers key (elim x [
            | ok stored ↦ record {
              cache = c;
              status = status;
              reply = ok (record reply {
                headers = do_delete_headers p f.del_header (set_headers f stored reply.headers);
              });
            }
            | err e ↦ panicked c status
            | panic ↦ panicked c status
          ])
      go (ok stored) = done-Answers key c status _ h (right refl)
      go (err e) = panicked-Answers key c status h
      go panic = panicked-Answers key c status h

  write-Right :
      (key : Text) (bytes : List ℕ) (reply : Reply f)
      → reply.body ≡ []
      → Right key bytes
      → (write bytes reply).1 ≡ none
      → Right key (write bytes reply).0.body
  write-Right key bytes reply empty right wrote = go (f.write_error bytes) wrote
    where
      go :
          (e : Option Text)
          → (written bytes reply e).1 ≡ none
          → Right key (written bytes reply e).0.body
      go none w = subst (λ b. Right key (b ++ bytes)) (sym empty) right
      go (some x) w = absurd (cc)

  pub cached-Answers :
      (key : Text) (t : TilePacket) (status : Option Text) (reply : Reply f) (c : Cache Opts s)
      → IsFaithful sum256 Right c
      → reply.body ≡ []
      → IsRightPacket sum256 Right key t
      → Answers key (return_cached_tile p t status reply c)
  unfolding return_cached_tile
  cached-Answers key t status reply c h empty right =
      let whole : tile_data t ≡ ok right.body =
        rw right.encoded
          (tile_data-encode_whole sum256 sized right.body right.stored right.short) in
      rw (whole, return_cached_tile)
        (after_body-Answers key t status (write right.body reply).0 (write right.body reply).1 c h
          (write-Right key right.body reply empty right.right))

  write_data-Right :
      (key : Text) (r : ProxyResponse) (reply : Reply f)
      → reply.body ≡ []
      → Right key r.body
      → (write_data p r reply).1 ≡ none
      → Right key (write_data p r reply).0.body
  unfolding write_data
  write_data-Right key r reply empty right wrote =
      let deleted : Reply f = record reply {
        headers = do_delete_headers p f.del_header reply.headers;
      } in
      write-Right key r.body (if r.code == 204 then record deleted { status = 204 } else deleted)
        (if_both (λ (x : Reply f). x.body ≡ []) (r.code == 204) empty empty) right wrote

  after_write-Answers :
      (key : Text) (r : ProxyResponse) (status failed : Option Text) (reply : Reply f)
      (c : Cache Opts s)
      → IsFaithful sum256 Right c
      → Right key r.body × (length r.body < 2 ^ 32)
      → (failed ≡ none → Right key reply.body)
      → Answers key (after_process sum256 agent status (after_write sum256 p key r failed reply c))
  unfolding after_write after_process cache_later
  after_write-Answers key r status none reply c h right written_right =
      done-Answers key (cache_later sum256 p key r c) status reply
        (later-IsFaithful sum256 Right frames c
          (set_both key (Packet.encode sum256 r.body (do_pull_headers p r.resp []))) h
          (record {
            body = r.body;
            stored = do_pull_headers p r.resp [];
            encoded = refl;
            right = right.0;
            short = right.1;
          }))
        (written_right refl)
  after_write-Answers key r status (some e) reply c h right written_right =
      failed-Answers key c (some (codes ":err-u")) reply h

  processed-Answers :
      (key : Text) (r : ProxyResponse) (status : Option Text) (reply : Reply f) (c : Cache Opts s)
      → IsFaithful sum256 Right c
      → reply.body ≡ []
      → IsRightResponse Right key (ok r)
      → Answers key
          (after_process sum256 agent status (process_response sum256 p key r true reply c))
  unfolding process_response after_process
  processed-Answers key r status reply c h empty right = elim (Bool-cases (is_tile r)) [
    | inr refused ↦ rw refused (failed-Answers key c (some (codes ":err-u")) reply h)
    | inl tile ↦
        let good = right ((is_tile_iff r).0 tile) in
        rw tile (
          after_write-Answers key r status (write_data p r reply).1 (write_data p r reply).0 c h
            good (write_data-Right key r reply empty good.0))
  ]

  pub flight-Answers :
      (key : Text) (response : Result Text ProxyResponse) (waited : Bool) (reply : Reply f)
      (c : Cache Opts s)
      → IsFaithful sum256 Right c
      → reply.body ≡ []
      → IsRightResponse Right key response
      → Answers key (after_flight sum256 agent p key response waited reply c)
  unfolding after_flight
  flight-Answers key (err e) waited reply c h empty right =
      failed-Answers key c (some (codes ":err-a")) reply h
  flight-Answers key panic waited reply c h empty right =
      panicked-Answers key c (some (codes ":miss ")) h
  flight-Answers key (ok r) waited reply c h empty right =
      processed-Answers key r (some (if waited then codes ":hit-w" else codes ":miss ")) reply c h
        empty right

  pub fetched-Answers :
      (tile_url key : Text) (flight : Flight) (reply : Reply f) (x : Fetched Opts s)
      → IsFaithfulFetch sum256 Right frames sized key x
      → reply.body ≡ []
      → IsRightFlight Right agent p tile_url key flight
      → Answers key (after_fetch sum256 agent p tile_url key flight reply x)
  unfolding after_fetch
  fetched-Answers tile_url key flight reply x h empty right = go x.tile h.1
    where
      go :
          (t : Result (Unit {0}) (Option TilePacket))
          → ((u : TilePacket) → t ≡ ok (some u) → IsRightPacket sum256 Right key u)
          → Answers key
              (after_fetch sum256 agent p tile_url key flight reply (record x { tile = t }))
      go (ok (some t)) found = cached-Answers key t x.status reply x.cache h.0 empty (found t refl)
      go (ok none) found =
          flight-Answers key _ (do_flight flight (fetch_upstream agent tile_url p)).1 reply x.cache
            h.0 empty right
      go (err e) found = panicked-Answers key x.cache x.status h.0
      go panic found = panicked-Answers key x.cache x.status h.0
