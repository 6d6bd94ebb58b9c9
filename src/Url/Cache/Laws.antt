-- ===== src/Url/Cache/Laws.antt =====
-- What the cache and the deduplication leave alone.
use bearlink.Prelude.{String, ◌≡◌, arith}
use bearlink.Url.Platform.{Platform, Setup, World}
use bearlink.Url.Cache.{find_url, is_unique_click}

module _ (P : Platform) (setup : Setup) where
  -- A lookup reads the database and leaves it as it is.
  pub find_url-db : (slug : String) (w : World P) → (find_url P setup slug w).1.db ≡ w.db
  unfolding find_url
  find_url-db slug w = ground arith

  pub is_unique_click-db :
      (short_id ip : String) (w : World P) → (is_unique_click P setup short_id ip w).1.db ≡ w.db
  unfolding is_unique_click
  is_unique_click-db short_id ip w = ground arith
