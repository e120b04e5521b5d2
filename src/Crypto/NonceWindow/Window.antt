-- ===== src/Crypto/NonceWindow/Window.antt =====
-- The window against the set of the nonces that were accepted.
use native.Mathlib.Nat.{mod-lt, mod-eq_of_lt}
use mathlib.Core.Bool.{false≢true}
use fyles_release.Base.Slots.{slot-ne, slot_again}
use fyles_release.Base.{
  ℕ, zero, suc, ◌+◌, ◌%◌, ◌≤◌, ◌<◌, ◌≡◌, ◌∙◌, ap, sym, Bool, true, false, not, some, ◌==◌, arith,
  dec_lt, Bool-cases, inl, inr,
}
use fyles_release.Crypto.BitStore.{BitStore, Lawful}
use fyles_release.Crypto.NonceWindow.{RollingNonceWindow, u64_mod, modulo, revalidate}

c-lt-top : (used : ℕ → Bool) (c top : ℕ) → c ≤ top → used top ≡ false → used c ≡ true → c < top
c-lt-top used c top l h k = elim (dec_lt c top) [
  | yes p ↦ p
  | no p ↦ let e : c ≡ top = omega arith in absurd (false≢true (sym h ∙ ap used (sym e) ∙ k))
]

module _ {T : Type 0} (b : BitStore T) (laws : Lawful b) where
  -- A store holds, for the `size` nonces from `start` on, whether each may still be used; all below
  -- are used, and none above.
  pub record Agrees (used : ℕ → Bool) (t : T) (start : ℕ) : Type 0 where
    pub below : (x : ℕ) → x < start → used x ≡ true
    pub slots :
        (x : ℕ) → start ≤ x → x < start + b.size t → laws.bit t (x % b.size t) ≡ not (used x)
    pub above : (x : ℕ) → start + b.size t ≤ x → used x ≡ false

  pub record Tracks (used : ℕ → Bool) (w : RollingNonceWindow T) : Type 0 where
    pub agrees : Agrees used w.window w.lower_bound
    pub room : 0 < b.size w.window
    pub next_fresh : used w.lower_bound ≡ false

  module _ (used : ℕ → Bool) (t : T) (c : ℕ) (room : 0 < b.size t) (a : Agrees used t c) where
    validate_at-used : (b.validate_at t (modulo c (b.size t))).0 ≡ used c
    validate_at-used = ground (
      arith,
      laws.validate_at_result t (c % b.size t) (mod-lt c room),
      a.slots c (omega arith) (omega arith),
    )

    validate_at-slot :
        (x : ℕ)
        → c + 1 ≤ x
        → x < c + 1 + b.size t
        → laws.bit (b.validate_at t (modulo c (b.size t))).1 (x % b.size t) ≡ not (used x)
    validate_at-slot x l m = elim (dec_lt x (c + b.size t)) [
      | yes inside ↦ ground (
        arith,
        slot-ne (b.size t) c x (omega arith) inside,
        laws.bit-validate_at t (c % b.size t) (x % b.size t) (mod-lt c room),
        a.slots x (omega arith) inside,
      )
      | no last ↦ ground (
        arith,
        slot_again (b.size t) c x (omega arith),
        laws.bit-validate_at t (c % b.size t) (x % b.size t) (mod-lt c room),
        a.above x (omega arith),
      )
    ]

    unused_slot :
        used c ≡ false
        → (x : ℕ) → c ≤ x
        → x < c + b.size t
        → laws.bit (b.validate_at t (modulo c (b.size t))).1 (x % b.size t) ≡ not (used x)
    unused_slot h x l m = elim (dec_lt c x) [
      | yes later ↦ ground (
        arith,
        slot-ne (b.size t) c x later m,
        laws.bit-validate_at t (c % b.size t) (x % b.size t) (mod-lt c room),
        a.slots x l m,
      )
      | no here ↦
          let e : x ≡ c = omega arith in
          rw e
            (ground (arith, laws.bit-validate_at t (c % b.size t) (c % b.size t) (mod-lt c room)))
    ]

    -- Setting the bit of a used nonce moves the window past it.
    Agrees-suc : used c ≡ true → Agrees used (b.validate_at t (modulo c (b.size t))).1 (c + 1)
    Agrees-suc h =
        let same = laws.size-validate_at t (modulo c (b.size t)) in
        record {
          below = λ x l. elim (Bool-cases (x == c)) [
            | inl here ↦ let e : x ≡ c = ground arith in rw e h
            | inr other ↦ a.below x (ground arith)
          ];
          slots = λ x l m. rw same (validate_at-slot x l (rw same at m));
          above = λ x l. a.above x (omega (arith, same));
        }

    -- Setting the bit of an unused nonce changes no bit.
    Agrees-same : used c ≡ false → Agrees used (b.validate_at t (modulo c (b.size t))).1 c
    Agrees-same h =
        let same = laws.size-validate_at t (modulo c (b.size t)) in
        record {
          below = a.below;
          slots = λ x l m. rw same (unused_slot h x l (rw same at m));
          above = λ x l. a.above x (omega (arith, same));
        }

  -- The loop ends within its fuel, at the first nonce that is not used.
  pub revalidate_lem :
      (used : ℕ → Bool) (top fuel : ℕ) (t : T) (c : ℕ)
      → 0 < b.size t
      → Agrees used t c
      → c ≤ top
      → top < c + fuel
      → top < u64_mod
      → ((x : ℕ) → top ≤ x → used x ≡ false)
      → (d : ℕ) × (t' : T) × (revalidate b fuel t c ≡ some (d, t'))
        × Agrees used t' d
        × (used d ≡ false)
        × (d ≤ top)
        × (b.size t' ≡ b.size t)
  unfolding revalidate
  revalidate_lem used top zero t c room a l m w h = absurd (omega arith)
  revalidate_lem used top (suc fuel) t c room a l m w h = elim (Bool-cases (used c)) [
    | inl taken ↦
        let same = laws.size-validate_at t (modulo c (b.size t)) in
        let go : c < top = c-lt-top used c top l (h top (omega arith)) taken in
        let (d, t', e, a', f, k, s) =
          revalidate_lem used top fuel (b.validate_at t (modulo c (b.size t))).1 (c + 1)
            (rw same room) (Agrees-suc used t c room a taken) (omega arith) (omega arith) w h in
        (
          d,
          t',
          rw
              (
                validate_at-used used t c room a,
                taken,
                mod-eq_of_lt {n = c + 1} {m = u64_mod} (omega arith),
              )
              e,
          a',
          f,
          k,
          s ∙ same,
        )
    | inr free ↦ (
      c,
      (b.validate_at t (modulo c (b.size t))).1,
      rw (validate_at-used used t c room a, free),
      Agrees-same used t c room a free,
      free,
      l,
      laws.size-validate_at t (modulo c (b.size t)),
    )
  ]
