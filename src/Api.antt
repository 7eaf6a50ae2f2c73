-- ===== src/Api.antt =====
-- api.py: `_RateLimiter`, a sliding window of requests per key.
pub mod Hits
pub mod Requests
pub mod Handlers
pub mod Server
pub mod Handled
pub mod Guarded
pub mod Window
use lucyd.Base.{
  ℕ, ◌+◌, String, Bool, true, false, Option, none, some, List, [], ◌∷◌, ◌++◌, map, length,
  get_last?, filter_by, ltb, leb, if◌then◌else◌,
}
use lucyd.Base.Dict.{Dict, lookup, insert, erase}

pub record RateLimiter : Type 0 where
  pub max_requests : ℕ
  pub window : ℕ
  pub cleanup_threshold : ℕ

-- `self._hits[key]` of a defaultdict
unfoldable pub or_nil : Option (List ℕ) → List ℕ
or_nil none = []
or_nil (some ts) = ts

unfoldable pub hits_of : String → Dict (List ℕ) → List ℕ
unfolding or_nil lookup
hits_of key hits = or_nil (lookup key hits)

module _ (l : RateLimiter) where
  -- `now - t < self.window`, for a `t` that is not after `now`
  unfoldable pub is_recent : ℕ → ℕ → Bool
  is_recent now t = ltb now (t + l.window)

  unfoldable pub recent : ℕ → List ℕ → List ℕ
  unfolding is_recent
  recent now ts = filter_by (is_recent now) ts

  -- `not v or now - v[-1] >= self.window`
  unfoldable pub is_stale : ℕ → Option ℕ → Bool
  is_stale now none = true
  is_stale now (some t) = leb (t + l.window) now

  -- the keys that the sweep deletes
  unfoldable pub stale_keys : ℕ → Dict (List ℕ) → List String
  unfolding is_stale hits_of
  stale_keys now hits =
      filter_by (λ k. is_stale now (get_last? (hits_of k hits))) (map (λ e. e.0) hits)

  unfoldable pub delete_keys : List String → Dict (List ℕ) → Dict (List ℕ)
  unfolding erase
  delete_keys [] hits = hits
  delete_keys (k ∷ ks) hits = delete_keys ks (erase k hits)

  unfoldable pub sweep : ℕ → Dict (List ℕ) → Dict (List ℕ)
  unfolding delete_keys stale_keys
  sweep now hits =
      if ltb l.cleanup_threshold (length hits) then delete_keys (stale_keys now hits) hits else hits

  -- `check`, on what is left of the key's hits
  unfoldable pub admit : ℕ → String → List ℕ → Dict (List ℕ) → Bool × Dict (List ℕ)
  unfolding insert
  admit now key kept hits =
      if leb l.max_requests (length kept)
      then (false, insert key kept hits)
      else (true, insert key (kept ++ now ∷ []) hits)

  -- `_RateLimiter.check` at a time
  unfoldable pub check : ℕ → String → Dict (List ℕ) → Bool × Dict (List ℕ)
  unfolding admit recent hits_of sweep
  check now key hits = admit now key (recent now (hits_of key (sweep now hits))) (sweep now hits)

  -- requests one after the other, each with the time since the one before
  unfoldable pub check_all : ℕ → List (String × ℕ) → Dict (List ℕ) → List Bool
  unfolding check
  check_all clock [] hits = []
  check_all clock ((key, wait) ∷ requests) hits =
      let (allowed, hits') = check (clock + wait) key hits in
      allowed ∷ check_all (clock + wait) requests hits'
