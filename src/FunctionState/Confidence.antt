-- ===== src/FunctionState/Confidence.antt =====
-- How confident `_FunctionState.Check` is.
use native.Mathlib.Nat.{pow-suc}
use core_arbiter.Prelude.{
  ℕ, zero, suc, ◌*◌, ◌/◌, ◌^◌, ◌≤◌, ◌<◌, ◌≡◌, ◌⊎◌, inl, inr, Bool, true, false, not, List, [], ◌∷◌,
  arith, ltb, if◌then◌else◌, ltb→lt, if_cases,
}
use core_arbiter.Str.{Str}
use core_arbiter.Regex.{matches}
use core_arbiter.FunctionState.{
  FunctionState, normal_trigger, test_trigger, test_name, log2_floor, base_trigger, clamp5, check,
}
use core_arbiter.Report.{Report}

pow_pos : (v : ℕ) → 0 < 2 ^ v
pow_pos zero = omega arith
pow_pos (suc v) = let e : 2 ^ suc v ≡ 2 ^ v * 2 = pow-suc 2 v in omega (arith, e, pow_pos v)

log2_floor-le : (fuel v n : ℕ) → 2 ^ v ≤ n → n ≤ fuel → v ≤ log2_floor fuel n
unfolding log2_floor
log2_floor-le zero v n h le = absurd (omega (arith, pow_pos v))
log2_floor-le (suc fuel) zero n h le = omega arith
log2_floor-le (suc fuel) (suc v) n h le =
    let e : 2 ^ suc v ≡ 2 ^ v * 2 = pow-suc 2 v in
    let p : 2 ^ v ≤ n / 2 = omega (arith, e) in
    let q : 2 ≤ n = omega (arith, e, pow_pos v) in
    ground (arith, log2_floor-le fuel v (n / 2) p (omega arith))

-- No report, or one, with what `Check` knows in each case.
abbrev pub Confident : FunctionState → ℕ → List Report → Type 0
Confident fs verbose_level [] =
    (fs.in_a_function ≡ false) ⊎ (fs.lines_in_function ≤ base_trigger fs * 2 ^ verbose_level)
Confident fs verbose_level (r ∷ []) =
    (fs.in_a_function ≡ true)
    × (base_trigger fs * 2 ^ verbose_level < fs.lines_in_function)
    × (r.confidence ≤ 5)
    × (clamp5 verbose_level ≤ r.confidence)
Confident fs verbose_level (r ∷ _ ∷ _) = ⊥

quotient_large :
    (fs : FunctionState) (v : ℕ)
    → base_trigger fs * 2 ^ v < fs.lines_in_function
    → 2 ^ v ≤ fs.lines_in_function / base_trigger fs
unfolding base_trigger
quotient_large fs v h = if_quotient (matches test_name fs.current_function) h
  where
    if_quotient :
        (b : Bool)
        → (if b then test_trigger else normal_trigger) * 2 ^ v < fs.lines_in_function
        → 2 ^ v ≤ fs.lines_in_function / (if b then test_trigger else normal_trigger)
    if_quotient true h = omega arith
    if_quotient false h = omega arith

clamp5_bounds : (v n : ℕ) → v ≤ n → (clamp5 n ≤ 5) × (clamp5 v ≤ clamp5 n)
clamp5_bounds v n h = (ground arith, ground arith)

-- `Check` reports at most once, and exactly in a function with more lines than the trigger. The
-- confidence of its report is at most 5 and at least the verbosity level or 5, so that a level up to 5
-- never hides the report.
pub check-Confident :
    (fs : FunctionState) (filename : Str) (linenum verbose_level : ℕ)
    → Confident fs verbose_level (check fs filename linenum verbose_level)
unfolding check
check-Confident fs filename linenum v =
    if_cases (Confident fs v) (not fs.in_a_function) _ _ (λ e. inl (ground arith))
      λ e.
        if_cases (Confident fs v) (ltb (base_trigger fs * 2 ^ v) fs.lines_in_function) _ _
          (λ t.
            let lt : base_trigger fs * 2 ^ v < fs.lines_in_function = ltb→lt _ _ t in
            let n : ℕ = fs.lines_in_function / base_trigger fs in
            let (a, b) =
              clamp5_bounds v (log2_floor n n)
                (log2_floor-le n v n (quotient_large fs v lt) (omega arith)) in
            (ground arith, lt, a, b))
          (λ t. inr (ground arith))
