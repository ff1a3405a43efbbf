-- ===== src/Pricing/Cost.antt =====
-- The cost of a call is the exact price, but for the rounding of four divisions; and the tier is the
-- smallest that takes the input.
use softmatrix_airlock.Base.{ℕ, ◌+◌, ◌-◌, ◌*◌, ◌/◌, ◌^◌, ◌≤◌, ◌<◌, ◌≡◌, refl, ok, arith}
use softmatrix_airlock.Base.Int.{ℤ, pos, wrap64-pos, +ℤ-pos, -ℤ-pos, *ℤ-pos}
use softmatrix_airlock.Pricing.Model.{
  Tier, ModelPrice, Usage, select_tier, validate, per_million, ◌⊕◌, ◌⊖◌, total_for, cost,
}

per_million-pos : (t p : ℕ) → t * p < 2 ^ 63 → per_million (pos t) (pos p) ≡ pos (t * p / 1000000)
unfolding per_million
per_million-pos t p h = rw (*ℤ-pos t p, wrap64-pos (t * p) h)

⊖-pos : (a b : ℕ) → b ≤ a → a < 2 ^ 63 → pos a ⊖ pos b ≡ pos (a - b)
unfolding ◌⊖◌
⊖-pos a b h l = rw (-ℤ-pos a b h) (wrap64-pos (a - b) (omega arith))

⊕-pos : (a b : ℕ) → a + b < 2 ^ 63 → pos a ⊕ pos b ≡ pos (a + b)
unfolding ◌⊕◌
⊕-pos a b h = rw (+ℤ-pos a b) (wrap64-pos (a + b) h)

-- A usage as the protocol means it: the cached and the reasoning tokens are parts of the others.
pub record Tokens : Type 0 where
  pub fresh : ℕ
  pub cached : ℕ
  pub plain : ℕ
  pub reasoning : ℕ

abbrev pub usage_of : Tokens → Usage
usage_of k = record {
  input_tokens = pos (k.fresh + k.cached);
  cached_input_tokens = pos k.cached;
  output_tokens = pos (k.plain + k.reasoning);
  reasoning_tokens = pos k.reasoning;
}

pub record Prices : Type 0 where
  pub input : ℕ
  pub cached : ℕ
  pub output : ℕ
  pub reasoning : ℕ

abbrev pub tier_of : ℤ → Prices → Tier
tier_of m q = record {
  max_input_tokens = m;
  input_per_1m = pos q.input;
  cached_input_per_1m = pos q.cached;
  output_per_1m = pos q.output;
  reasoning_per_1m = pos q.reasoning;
}

-- A million times the price of the call, with no rounding.
abbrev pub exact_price : Tokens → Prices → ℕ
exact_price k q =
    k.fresh * q.input + k.cached * q.cached + k.plain * q.output + k.reasoning * q.reasoning

validate-usage_of : (k : Tokens) → validate (usage_of k) ≡ ok tt
unfolding validate
validate-usage_of k = ground arith

pub record Rounded (exact : ℕ) (m : ℕ) : Type 0 where
  pub below : m * 1000000 ≤ exact
  pub close : exact ≤ m * 1000000 + 3999996

four_floors :
    (a b c d : ℕ) → Rounded (a + b + c + d) (a / 1000000 + b / 1000000 + c / 1000000 + d / 1000000)
four_floors a b c d = omega arith

add_sub : (a b : ℕ) → a + b - b ≡ a
add_sub a b = omega arith

sum_pos :
    (a b c d : ℕ)
    → a + b + c + d < 2 ^ 63
    → (pos (a / 1000000) ⊕ pos (b / 1000000) ⊕ pos (c / 1000000) ⊕ pos (d / 1000000))
      ≡ pos (a / 1000000 + b / 1000000 + c / 1000000 + d / 1000000)
sum_pos a b c d h = rw (
  ⊕-pos (a / 1000000) (b / 1000000) (omega arith),
  ⊕-pos (a / 1000000 + b / 1000000) (c / 1000000) (omega arith),
  ⊕-pos (a / 1000000 + b / 1000000 + c / 1000000) (d / 1000000) (omega arith),
)

total_for-exact :
    (k : Tokens) (m : ℤ) (q : Prices)
    → k.fresh + k.cached < 2 ^ 63
    → k.plain + k.reasoning < 2 ^ 63
    → exact_price k q < 2 ^ 63
    → total_for (tier_of m q) (usage_of k)
      ≡ pos (
          k.fresh * q.input / 1000000
          + k.cached * q.cached / 1000000
          + k.plain * q.output / 1000000
          + k.reasoning * q.reasoning / 1000000)
unfolding total_for
total_for-exact k m q hi ho h =
    rw
      (
        ⊖-pos (k.fresh + k.cached) k.cached (omega arith) hi,
        ⊖-pos (k.plain + k.reasoning) k.reasoning (omega arith) ho,
        per_million-pos (k.fresh + k.cached - k.cached) q.input
            (rw (add_sub k.fresh k.cached) (omega arith)),
        per_million-pos k.cached q.cached (omega arith),
        per_million-pos (k.plain + k.reasoning - k.reasoning) q.output
            (rw (add_sub k.plain k.reasoning) (omega arith)),
        per_million-pos k.reasoning q.reasoning (omega arith),
        add_sub k.fresh k.cached,
        add_sub k.plain k.reasoning,
      )
      (sum_pos (k.fresh * q.input) (k.cached * q.cached) (k.plain * q.output)
        (k.reasoning * q.reasoning) h)

-- For a usage and a tier without negative numbers, where the exact price stays below 2^63 / 10^6
-- (and each token count below 2^63), the cost is that of the selected tier, no more than the exact
-- price and less than four millionths short of it.
pub cost-Rounded :
    (p : ModelPrice) (k : Tokens) (m : ℤ) (q : Prices)
    → select_tier p (pos (k.fresh + k.cached)) ≡ ok (tier_of m q)
    → k.fresh + k.cached < 2 ^ 63
    → k.plain + k.reasoning < 2 ^ 63
    → exact_price k q < 2 ^ 63
    → (c : ℕ) × (cost p (usage_of k) ≡ ok (pos c)) × Rounded (exact_price k q) c
unfolding cost
cost-Rounded p k m q sel hi ho h = (
  k.fresh * q.input / 1000000
      + k.cached * q.cached / 1000000
      + k.plain * q.output / 1000000
      + k.reasoning * q.reasoning / 1000000,
  rw (validate-usage_of k, sel, total_for-exact k m q hi ho h) refl,
  four_floors (k.fresh * q.input) (k.cached * q.cached) (k.plain * q.output)
      (k.reasoning * q.reasoning),
)
