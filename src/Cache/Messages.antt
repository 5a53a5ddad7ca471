-- ===== src/Cache/Messages.antt =====
-- The texts of the errors of the package cache (cache/errors.go).
use lod.Prelude.{◌++◌}
use lod.Prelude.Text.{Text, codes}
use lod.Cache.Registry.{
  CacheError, build_instance_failed, init_internal_failed, init_external_failed,
}

unfoldable pub cache_message : CacheError → Text
cache_message (build_instance_failed name e) =
    codes "config: failed to init caches for proxy '"
    ++ (name ++ (codes "', got error " ++ cache_message e))
cache_message (init_internal_failed name e) =
    codes "cache: failed to init internal memory cache for '"
    ++ (name ++ (codes "', got error " ++ e))
cache_message (init_external_failed name e) =
    codes "cache: failed to init external cache for '" ++ (name ++ (codes "', got error " ++ e))
