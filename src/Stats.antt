-- ===== src/Stats.antt =====
-- pkg/stats/stats.go: the wrapper around the statsd client. The client is what has been sent to it; a
-- time is a number of nanoseconds, read from the state of the world.
pub mod Client
use kube_service_exporter.Base.{
  ℕ, zero, suc, ◌+◌, ◌-◌, ◌*◌, ◌/◌, ◌≡◌, refl, Option, none, some, List, [], ◌∷◌, ◌++◌, arith,
  length, length-append, Text, codes,
}

-- a call of the statsd client, with its tags; every rate is 1
pub data Sample : Type 0 where
  timing distribution gauge : Text → ℕ → List Text → Sample
  incr : Text → List Text → Sample

-- the tags that Configure hands to the client: the loop appends to a slice that has as many empty
-- texts already as there are tags
with_tags : List Text → List (Text × Text) → List Text
with_tags array [] = array
with_tags array (kv ∷ tags) = with_tags (array ++ (kv.0 ++ (b':' ∷ kv.1)) ∷ []) tags

blanks : ℕ → List Text
blanks zero = []
blanks (suc n) = [] ∷ blanks n

unfoldable pub tags_array : List (Text × Text) → List Text
unfolding with_tags blanks
tags_array tags = with_tags (blanks (length tags)) tags

length-with_tags :
    (array : List Text) (tags : List (Text × Text))
    → length (with_tags array tags) ≡ length array + length tags
unfolding with_tags
length-with_tags array [] = omega arith
length-with_tags array (kv ∷ tags) = omega (
  arith,
  length-with_tags (array ++ (kv.0 ++ (b':' ∷ kv.1)) ∷ []) tags,
  length-append array ((kv.0 ++ (b':' ∷ kv.1)) ∷ []),
)

length-blanks : (n : ℕ) → length (blanks n) ≡ n
unfolding blanks
length-blanks zero = refl
length-blanks (suc n) = omega (arith, length-blanks n)

-- The tags that Configure hands to the client are twice as many as those that it was given.
pub length-tags_array : (tags : List (Text × Text)) → length (tags_array tags) ≡ 2 * length tags
unfolding tags_array
length-tags_array tags =
    omega (arith, length-with_tags (blanks (length tags)) tags, length-blanks (length tags))

-- IncrSuccessOrFail
unfoldable pub incr_success_or_fail {ℓ} : {A : Type ℓ} → Option A → Text → List Text → Sample
incr_success_or_fail none prefix tags = incr (prefix ++ codes ".fail") tags
incr_success_or_fail (some a) prefix tags = incr (prefix ++ codes ".success") tags

-- DistributionMs
unfoldable pub distribution_ms : Text → List Text → ℕ → Sample
distribution_ms name tags value = distribution name (value / 1000000) tags

module _ {W : Type 0} (now : W → ℕ) where
  -- WithTiming, for a function that works on the world
  unfoldable pub with_timing {ℓ} :
      {A : Type ℓ} → Text → List Text → (W → A × W) → W × List Sample → A × (W × List Sample)
  with_timing name tags f (w, sent) =
      let (a, w') = f w in (a, (w', sent ++ timing name (now w' - now w) tags ∷ []))
