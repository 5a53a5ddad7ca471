-- ===== src/Helpers/Responses.antt =====
-- Which responses of the tile server `ProcessResponse` (helpers/helpers.go) accepts.
use lod.Prelude.{true, length, ◌≡◌, ◌↔◌, ◌⊎◌, ◌<◌, arith}
use lod.Helpers.Upstream.{ProxyResponse, is_tile}

-- The server has no content to give, or it succeeds with a body.
abbrev pub IsSuccess : ProxyResponse → Type 0
IsSuccess r = (r.code ≡ 204) ⊎ ((r.code ≡ 200) × (0 < length r.body))

pub is_tile_iff : (r : ProxyResponse) → (is_tile r ≡ true) ↔ IsSuccess r
unfolding is_tile
is_tile_iff r = ground arith
