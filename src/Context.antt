-- ===== src/Context.antt =====
-- context.py, `ContextBuilder._enforce_token_cap`: which blocks of the system prompt are trimmed to a cap.
use lucyd.Base.{
  ℕ, ◌+◌, ◌-◌, ◌≤◌, Text, Bool, true, false, List, [], ◌∷◌, ◌≡◌, ◌∙◌, refl, ◌⊎◌, inl, inr, leb,
  filter_by, All, if◌then◌else◌, arith, Bool-cases,
}

pub data Tier : Type 0 where
  stable semi_stable dynamic : Tier

-- `{"text": …, "tier": …}`
pub record Block : Type 0 where
  pub text : Text
  pub tier : Tier

unfoldable pub tier_eq : Tier → Tier → Bool
tier_eq Tier.stable Tier.stable = true
tier_eq Tier.semi_stable Tier.semi_stable = true
tier_eq Tier.dynamic Tier.dynamic = true
tier_eq _ _ = false

unfoldable pub is_stable : Block → Bool
unfolding tier_eq
is_stable b = tier_eq b.tier Tier.stable

other_tier :
    (t u : Tier)
    → tier_eq Tier.stable u ≡ false
    → tier_eq t u ≡ true
    → tier_eq t Tier.stable ≡ false
unfolding tier_eq
other_tier Tier.stable u h e = cc (h, e)
other_tier Tier.semi_stable u h e = refl
other_tier Tier.dynamic u h e = refl

neither :
    (t : Tier)
    → tier_eq t Tier.dynamic ≡ false
    → tier_eq t Tier.semi_stable ≡ false
    → tier_eq t Tier.stable ≡ true
unfolding tier_eq
neither Tier.stable d s = refl
neither Tier.semi_stable d s = cc (s)
neither Tier.dynamic d s = cc (d)

-- `_estimate_tokens` of the tokenizer
module _ (estimate_tokens : Text → ℕ) where
  unfoldable pub total_tokens : List Block → ℕ
  total_tokens [] = 0
  total_tokens (b ∷ bs) = estimate_tokens b.text + total_tokens bs

  -- the inner loop, from the last block to the first: the total that is left, and the blocks
  unfoldable pub trim_tier : Tier → ℕ → ℕ → List Block → ℕ × List Block
  unfolding tier_eq
  trim_tier tier cap total [] = (total, [])
  trim_tier tier cap total (b ∷ bs) =
      let (left, kept) = trim_tier tier cap total bs in
      if leb left cap
      then (left, b ∷ kept)
      else if tier_eq b.tier tier
      then (left - estimate_tokens b.text, kept)
      else (left, b ∷ kept)

  -- `_enforce_token_cap`
  unfoldable pub enforce_token_cap : ℕ → List Block → List Block
  unfolding total_tokens trim_tier
  enforce_token_cap cap blocks =
      if leb (total_tokens blocks) cap
      then blocks
      else (let (left, kept) = trim_tier Tier.dynamic cap (total_tokens blocks) blocks in
          (trim_tier Tier.semi_stable cap left kept).1)

  -- What one tier's trimming does: the total stays right, and the cap holds or the tier is gone.
  record Trims (tier : Tier) (cap total : ℕ) (bs : List Block) (r : ℕ × List Block) : Type 0 where
    count : r.0 + total_tokens bs ≡ total + total_tokens r.1
    fewer : total_tokens r.1 ≤ total_tokens bs
    done : (r.0 ≤ cap) ⊎ All (λ b. tier_eq b.tier tier ≡ false) r.1

  add_block :
      (tier : Tier) (cap total : ℕ) (b : Block) (bs : List Block) (r : ℕ × List Block)
      → (r.0 ≤ cap) ⊎ (tier_eq b.tier tier ≡ false)
      → Trims tier cap total bs r
      → Trims tier cap total (b ∷ bs) (r.0, b ∷ r.1)
  unfolding total_tokens
  add_block tier cap total b bs r (inl low) h = record {
    count = omega (arith, h.count);
    fewer = omega (arith, h.fewer);
    done = inl low;
  }
  add_block tier cap total b bs r (inr other) h = record {
    count = omega (arith, h.count);
    fewer = omega (arith, h.fewer);
    done = elim h.done [ inl low ↦ inl low | inr none_left ↦ inr (other, none_left) ];
  }

  drop_block :
      (tier : Tier) (cap total : ℕ) (b : Block) (bs : List Block) (r : ℕ × List Block)
      → total_tokens (b ∷ bs) ≤ total
      → Trims tier cap total bs r
      → Trims tier cap total (b ∷ bs) (r.0 - estimate_tokens b.text, r.1)
  unfolding total_tokens
  drop_block tier cap total b bs r enough h = record {
    count = omega (arith, h.count, h.fewer);
    fewer = omega (arith, h.fewer);
    done = elim h.done [ inl low ↦ inl (omega arith) | inr none_left ↦ inr none_left ];
  }

  trim_tier-Trims :
      (tier : Tier) (cap total : ℕ) (bs : List Block)
      → total_tokens bs ≤ total
      → Trims tier cap total bs (trim_tier tier cap total bs)
  unfolding trim_tier total_tokens
  trim_tier-Trims tier cap total [] h = record { count = refl; fewer = omega arith; done = inr tt }
  trim_tier-Trims tier cap total (b ∷ bs) h =
      let rest = trim_tier-Trims tier cap total bs (omega arith) in
      elim (Bool-cases (leb (trim_tier tier cap total bs).0 cap)) [
        | inl low ↦
            rw low (
              add_block tier cap total b bs (trim_tier tier cap total bs) (inl (ground arith)) rest)
        | inr over ↦ elim (Bool-cases (tier_eq b.tier tier)) [
          | inl same ↦
              rw (over, same) (drop_block tier cap total b bs (trim_tier tier cap total bs) h rest)
          | inr other ↦
              rw (over, other)
                (add_block tier cap total b bs (trim_tier tier cap total bs) (inr other) rest)
        ]
      ]

  -- a block that is not of the tier stays
  trim_tier-stable :
      (tier : Tier) (cap total : ℕ) (bs : List Block)
      → tier_eq Tier.stable tier ≡ false
      → filter_by is_stable (trim_tier tier cap total bs).1 ≡ filter_by is_stable bs
  unfolding trim_tier is_stable
  trim_tier-stable tier cap total [] h = refl
  trim_tier-stable tier cap total (b ∷ bs) h =
      let rest = trim_tier-stable tier cap total bs h in
      elim (Bool-cases (leb (trim_tier tier cap total bs).0 cap)) [
        | inl low ↦ rw (low, rest)
        | inr over ↦ elim (Bool-cases (tier_eq b.tier tier)) [
          | inl same ↦ rw (over, same, other_tier b.tier tier h same, rest)
          | inr other ↦ rw (over, other, rest)
        ]
      ]

  -- what is kept of a list keeps every property of its blocks
  trim_tier-All :
      (P : Block → Type 0) (tier : Tier) (cap total : ℕ) (bs : List Block)
      → All P bs
      → All P (trim_tier tier cap total bs).1
  unfolding trim_tier
  trim_tier-All P tier cap total [] h = tt
  trim_tier-All P tier cap total (b ∷ bs) h =
      let rest = trim_tier-All P tier cap total bs h.1 in
      elim (Bool-cases (leb (trim_tier tier cap total bs).0 cap)) [
        | inl low ↦ rw low (h.0, rest)
        | inr over ↦ elim (Bool-cases (tier_eq b.tier tier)) [
          | inl same ↦ rw (over, same) rest
          | inr other ↦ rw (over, other) (h.0, rest)
        ]
      ]

  all_stable :
      (bs : List Block)
      → All (λ b. tier_eq b.tier Tier.dynamic ≡ false) bs
      → All (λ b. tier_eq b.tier Tier.semi_stable ≡ false) bs
      → All (λ b. is_stable b ≡ true) bs
  unfolding is_stable
  all_stable [] d s = tt
  all_stable (b ∷ bs) d s = (neither b.tier d.0 s.0, all_stable bs d.1 s.1)

  -- The stable blocks all stay, in order; and the tokens of what is left are within the cap unless only
  -- stable blocks are left.
  pub enforce_token_cap_lem :
      (cap : ℕ) (blocks : List Block)
      → (filter_by is_stable (enforce_token_cap cap blocks) ≡ filter_by is_stable blocks)
        × ((total_tokens (enforce_token_cap cap blocks) ≤ cap)
            ⊎ All (λ b. is_stable b ≡ true) (enforce_token_cap cap blocks))
  unfolding enforce_token_cap tier_eq
  enforce_token_cap_lem cap blocks = elim (Bool-cases (leb (total_tokens blocks) cap)) [
    | inl low ↦ rw low (refl, inl (ground arith))
    | inr over ↦
        let first = trim_tier Tier.dynamic cap (total_tokens blocks) blocks in
        let t = trim_tier-Trims Tier.dynamic cap (total_tokens blocks) blocks (omega arith) in
        let u = trim_tier-Trims Tier.semi_stable cap first.0 first.1 (omega (arith, t.count)) in
        rw over (
          trim_tier-stable Tier.semi_stable cap first.0 first.1 refl
              ∙ trim_tier-stable Tier.dynamic cap (total_tokens blocks) blocks refl,
          elim u.done [
            | inl low ↦ inl (omega (arith, t.count, u.count))
            | inr no_semi ↦ elim t.done [
              | inl low ↦ inl (omega (arith, t.count, u.fewer))
              | inr no_dynamic ↦ inr (
                  all_stable _ (trim_tier-All _ Tier.semi_stable cap first.0 first.1 no_dynamic)
                    no_semi)
            ]
          ],
        )
  ]
