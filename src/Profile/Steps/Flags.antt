-- ===== src/Profile/Steps/Flags.antt =====
-- The flags that src/pyDE1/de1/profile.py computes for a step.
use Prim.Native.String.{String}
use py_de.Base.{
  ℕ, ◌+◌, ◌≡◌, refl, ap, bit_or, Bool, true, false, ◌&&◌, Option, none, some, ok, arith, ◌==◌,
  if◌then◌else◌,
}
use py_de.PyNum.{Num}
use py_de.Json.{get, contains, is_text, str}
use py_de.Profile.Reading.{flags, exit_flags, flag_of}
use py_de.Profile.Steps.{Step, Exit, Limit, choose, render_step, flag_bits}

-- A test that holds for both Booleans.
abbrev both : (Bool → Bool) → Bool
both p = p true && p false

both-at : (p : Bool → Bool) → both p ≡ true → (b : Bool) → p b ≡ true
both-at p h true = ground (arith, h)
both-at p h false = ground (arith, h)

abbrev or_bits : (a has o f m r : Bool) → ℕ
or_bits a has o f m r =
    bit_or
      (bit_or
        (bit_or
          (bit_or (if a then 1 else 0)
            (if has then bit_or (bit_or 2 (if o then 4 else 0)) (if f then 8 else 0) else 0))
          (if m then 16 else 0))
        (if r then 32 else 0))
      64

abbrev sum_bits : (a has o f m r : Bool) → ℕ
sum_bits a has o f m r =
    (if a then 1 else 0)
    + (if has then 2 + (if o then 4 else 0) + (if f then 8 else 0) else 0)
    + (if m then 16 else 0)
    + (if r then 32 else 0)
    + 64

-- The bits are distinct: checked for every choice of them.
or_bits-sum : (a has o f m r : Bool) → or_bits a has o f m r ≡ sum_bits a has o f m r
or_bits-sum a has o f m r =
    let same : (a has o f m r : Bool) → Bool =
      λ a has o f m r. or_bits a has o f m r == sum_bits a has o f m r in
    let h1 =
      both-at (λ a. both λ has. both λ o. both λ f. both λ m. both λ r. same a has o f m r) refl
        a in
    let h2 = both-at (λ has. both λ o. both λ f. both λ m. both λ r. same a has o f m r) h1 has in
    let h3 = both-at (λ o. both λ f. both λ m. both λ r. same a has o f m r) h2 o in
    let h4 = both-at (λ f. both λ m. both λ r. same a has o f m r) h3 f in
    let h5 = both-at (λ m. both λ r. same a has o f m r) h4 m in
    let h6 = both-at (λ r. same a has o f m r) h5 r in ground (arith, h6)

abbrev or_exit : Option Exit → ℕ
or_exit none = 0
or_exit (some e) = bit_or (bit_or 2 (if e.over then 4 else 0)) (if e.of_flow then 8 else 0)

exit_flags-some :
    (s : Step) (o f : Bool) (v : Num)
    → let e : Option Exit = some (record { over = o; of_flow = f; value = v }) in
      exit_flags (render_step (record s { exit = e })) ≡ ok (or_exit e)
unfolding exit_flags get contains is_text
exit_flags-some s true true v = refl
exit_flags-some s true false v = refl
exit_flags-some s false true v = refl
exit_flags-some s false false v = refl

exit_flags-none :
    (s : Step) (l : Option Limit) (w : Option Num)
    → exit_flags (render_step (record s { exit = none; limit = l; weight = w })) ≡ ok 0
unfolding exit_flags get contains is_text
exit_flags-none s none none = refl
exit_flags-none s none (some w) = refl
exit_flags-none s (some l) none = refl
exit_flags-none s (some l) (some w) = refl

exit_flags-render : (s : Step) → exit_flags (render_step s) ≡ ok (or_exit s.exit)
exit_flags-render s = go s.exit
  where
    go : (e : Option Exit) → exit_flags (render_step (record s { exit = e })) ≡ ok (or_exit e)
    go none = exit_flags-none s s.limit s.weight
    go (some e) = exit_flags-some s e.over e.of_flow e.value

flag_of-choose :
    (b : Bool) (x y : String) (n : ℕ)
    → is_text (str x) x ≡ true
    → is_text (str y) x ≡ false
    → is_text (str y) y ≡ true
    → flag_of (choose b x y) x y n ≡ ok (if b then n else 0)
flag_of-choose true x y n h i j = rw h refl
flag_of-choose false x y n h i j = rw (i, j) refl

abbrev or_all : Step → ℕ
or_all s =
    bit_or
      (bit_or
        (bit_or (bit_or (if s.controls_flow then 1 else 0) (or_exit s.exit))
          (if s.mix_temperature then 16 else 0))
        (if s.smooth then 32 else 0))
      64

or_bits-flag_bits : (s : Step) → or_all s ≡ flag_bits s
or_bits-flag_bits s = go s.exit
  where
    go : (e : Option Exit) → or_all (record s { exit = e }) ≡ flag_bits (record s { exit = e })
    go none = or_bits-sum s.controls_flow false false false s.mix_temperature s.smooth
    go (some e) = or_bits-sum s.controls_flow true e.over e.of_flow s.mix_temperature s.smooth

-- The flags of a step that is rendered are the bits that stand for it.
pub flags-render :
    (s : Step)
    → flags
        (render_step s)
        (choose s.controls_flow "flow" "pressure")
        (choose s.mix_temperature "water" "coffee")
        (choose s.smooth "smooth" "fast")
      ≡ ok (flag_bits s)
unfolding flags is_text
flags-render s =
    rw
      (
        flag_of-choose s.controls_flow "flow" "pressure" 1 refl refl refl,
        exit_flags-render s,
        flag_of-choose s.mix_temperature "water" "coffee" 16 refl refl refl,
        flag_of-choose s.smooth "smooth" "fast" 32 refl refl refl,
      )
      (ap ok (or_bits-flag_bits s))
