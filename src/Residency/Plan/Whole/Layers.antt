-- ===== src/Residency/Plan/Whole/Layers.antt =====
-- The loop over the layers, src/core/residency/plan.cpp: keys and values behind the ranges before them.
use mathlib.Core.List.{append_assoc}
use browser_llm.Base.{
  ℕ, ◌≡◌, refl, sym, ap, ◌∙◌, subst, false, Option, none, some, List, [], ◌∷◌, ◌++◌,
}
use browser_llm.Base.Words.{mul64}
use browser_llm.Residency.Packer.{DeviceLimits, BufferRange, Packer, Placed, place}
use browser_llm.Residency.Packer.Rounding.{IsDevice}
use browser_llm.Residency.Packer.Ranges.{IsPacked}
use browser_llm.Residency.Model.{PlannedCacheLayer, ResidencyPlan, failure, overflow, no_subject}
use browser_llm.Residency.Plan.Cache.{CacheCost, slots_at, place_layers}
use browser_llm.Residency.Plan.Cache.Bound.{AreBound}
use browser_llm.Residency.Plan.Apart.{cache_ranges, Holds, Gives, place-Holds}
use browser_llm.Residency.Plan.Whole.Needs.{first_ranges, ranges_of}

cache_ranges-snoc :
    (xs : List PlannedCacheLayer) (l : PlannedCacheLayer)
    → cache_ranges (xs ++ (l ∷ [])) ≡ (cache_ranges xs ++ (l.keys ∷ [])) ++ (l.values ∷ [])
cache_ranges-snoc [] l = refl
cache_ranges-snoc (x ∷ xs) l =
    ap (λ (t : List BufferRange). x.keys ∷ x.values ∷ t) (cache_ranges-snoc xs l)

module _ (limits : DeviceLimits) (d : IsDevice limits) where
  pub place_layers-Gives :
      (layers : List CacheCost) (p : Packer) (out : ResidencyPlan)
      → AreBound limits layers out.context_offered
      → Holds limits p out.buffers (ranges_of out)
      → Gives (λ plan. IsPacked limits plan.buffers (ranges_of plan)) (place_layers layers p out)
  unfolding place_layers
  place_layers-Gives [] p out l h = h.packed
  place_layers-Gives (layer ∷ rest) p out l h =
      by_keys (place p out.buffers count false) refl (place_layers-Gives rest)
    where
      count : ℕ
      count = mul64 (slots_at layer out.context_offered) layer.slot_bytes

      Next : Type 0
      Next =
          (p : Packer) (next : ResidencyPlan)
          → AreBound limits rest next.context_offered
          → Holds limits p next.buffers (ranges_of next)
          → Gives (λ plan. IsPacked limits plan.buffers (ranges_of plan)) (place_layers rest p next)

      both : Placed → Placed → ResidencyPlan
      both k v = record out {
        buffers = v.buffers;
        cache =
            out.cache
            ++ (record {
              keys = k.range;
              values = v.range;
              slots = slots_at layer out.context_offered;
            }
                ∷ []);
      }

      by_values :
          (k : Placed) (o : Option Placed)
          → Holds limits k.packer k.buffers (ranges_of out ++ (k.range ∷ []))
          → place k.packer k.buffers count false ≡ o
          → Next
          → Gives
              (λ plan. IsPacked limits plan.buffers (ranges_of plan))
              (elim o [
                | none ↦ failure overflow no_subject (record out { buffers = k.buffers })
                | some v ↦ place_layers rest v.packer (both k v)
              ])
      by_values k none w e go = tt
      by_values k (some v) w e go = go v.packer (both k v) l.1 (
          subst (Holds limits v.packer v.buffers)
            (ap (λ (t : List BufferRange). t ++ (v.range ∷ []))
                (append_assoc (first_ranges out) (cache_ranges out.cache) (k.range ∷ []))
              ∙ append_assoc (first_ranges out) (cache_ranges out.cache ++ (k.range ∷ []))
                  (v.range ∷ [])
              ∙ ap (λ (t : List BufferRange). first_ranges out ++ t)
                  (sym (cache_ranges-snoc out.cache _)))
            (place-Holds limits d k.packer k.buffers (ranges_of out ++ (k.range ∷ [])) count false v
              w l.0 e))

      by_keys :
          (o : Option Placed)
          → place p out.buffers count false ≡ o
          → Next
          → Gives
              (λ plan. IsPacked limits plan.buffers (ranges_of plan))
              (elim o [
                | none ↦ failure overflow no_subject out
                | some k ↦ elim (place k.packer k.buffers count false) [
                  | none ↦ failure overflow no_subject (record out { buffers = k.buffers })
                  | some v ↦ place_layers rest v.packer (both k v)
                ]
              ])
      by_keys none e go = tt
      by_keys (some k) e go =
          by_values k (place k.packer k.buffers count false)
            (place-Holds limits d p out.buffers (ranges_of out) count false k h l.0 e) refl go
