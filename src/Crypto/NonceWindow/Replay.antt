-- ===== src/Crypto/NonceWindow/Replay.antt =====
-- `RollingNonceWindow::is_valid`: what it accepts, and how the window rolls.
use native.Mathlib.Nat.{mod-eq_of_lt}
use mathlib.Core.Bool.{false≢true}
use fyles_release.Base.{
  ℕ, suc, ◌+◌, ◌%◌, ◌≤◌, ◌<◌, ◌≡◌, ◌≢◌, ◌⊎◌, refl, ◌∙◌, sym, Bool, true, false, not, arith, dec_lt,
  ℕ_discrete, Bool-cases, inl, inr,
}
use fyles_release.Crypto.BitStore.{BitStore, Lawful}
use fyles_release.Crypto.NonceWindow.{
  RollingNonceWindow, Verdict, valid, invalid, out_of_bounds_access, repeated_access, u64_mod,
  modulo, advance, is_valid, is_in_bounds,
}
use fyles_release.Base.Slots.{mark, slots-ne}
use fyles_release.Crypto.NonceWindow.Window.{Agrees, Tracks, revalidate_lem}

module _ {T : Type 0} (b : BitStore T) (laws : Lawful b) where
  abbrev pub upper : RollingNonceWindow T → ℕ
  upper w = w.lower_bound + b.size w.window

  -- After an accepting call: the nonce is marked, and the window has rolled at most its own size.
  abbrev pub Accepted :
      (ℕ → Bool) → RollingNonceWindow T → ℕ → Verdict × RollingNonceWindow T → Type 0
  Accepted used w x r =
      (r.0 ≡ valid)
      × Tracks b laws (mark used x) r.1
      × (r.1.lower_bound ≤ upper w)
      × (b.size r.1.window ≡ b.size w.window)

  -- After a refusing call: nothing is marked, and the window stays where it was.
  abbrev pub Refused : (ℕ → Bool) → RollingNonceWindow T → Verdict × RollingNonceWindow T → Type 0
  Refused used w r =
      (r.0 ≢ valid)
      × Tracks b laws used r.1
      × (r.1.lower_bound ≡ w.lower_bound)
      × (b.size r.1.window ≡ b.size w.window)

  module _ (used : ℕ → Bool) (w : RollingNonceWindow T) (k : Tracks b laws used w)
      (fits : upper w < u64_mod) (x : ℕ) where
    abbrev cleared : T
    cleared = (b.get_invalidate_at w.window (modulo x (b.size w.window))).1

    in_bounds : w.lower_bound ≤ x → x < upper w → is_in_bounds b w x ≡ true
    unfolding is_in_bounds
    in_bounds l m = rw (mod-eq_of_lt {n = upper w} {m = u64_mod} fits) (ground arith)

    out_of_bounds : (x < w.lower_bound) ⊎ (upper w ≤ x) → is_in_bounds b w x ≡ false
    unfolding is_in_bounds
    out_of_bounds h = rw (mod-eq_of_lt {n = upper w} {m = u64_mod} fits) (ground arith)

    fresh_bit :
        w.lower_bound ≤ x
        → x < upper w
        → (b.get_invalidate_at w.window (modulo x (b.size w.window))).0 ≡ not (used x)
    fresh_bit l m =
        laws.get_invalidate_at_result w.window (modulo x (b.size w.window)) ∙ k.agrees.slots x l m

    cleared-slot :
        w.lower_bound ≤ x
        → x < upper w
        → (y : ℕ) → w.lower_bound ≤ y
        → y < upper w
        → laws.bit cleared (y % b.size w.window) ≡ not (mark used x y)
    cleared-slot l m y l' m' = ground (
      arith,
      laws.bit-get_invalidate_at w.window (x % b.size w.window) (y % b.size w.window),
      slots-ne (b.size w.window) w.lower_bound x y l m l' m',
      k.agrees.slots y l' m',
    )

    -- Clearing the bit of a nonce marks it as used.
    Agrees-cleared :
        w.lower_bound ≤ x → x < upper w → Agrees b laws (mark used x) cleared w.lower_bound
    Agrees-cleared l m =
        let same = laws.size-get_invalidate_at w.window (modulo x (b.size w.window)) in
        record {
          below = λ y h. ground (arith, k.agrees.below y h);
          slots = λ y h j. rw same (cleared-slot l m y h (rw same at j));
          above = λ y h. ground (arith, same, k.agrees.above y);
        }

    first_fresh : used x ≡ false → w.lower_bound ≤ x
    first_fresh h = elim (dec_lt x w.lower_bound) [
      | yes p ↦ absurd (false≢true (sym h ∙ k.agrees.below x p))
      | no p ↦ omega arith
    ]

    advance_lem :
        used x ≡ false → x ≡ w.lower_bound → x < upper w → Accepted used w x (advance b w cleared x)
    unfolding advance
    advance_lem h e m =
        let same = laws.size-get_invalidate_at w.window (modulo x (b.size w.window)) in
        let (d, t, eq, a, f, l, s) =
          revalidate_lem b laws (mark used x) (upper w) (suc (b.size cleared)) cleared x
            (rw same k.room) (rw e (rw e at (Agrees-cleared (omega arith) m))) (omega arith)
            (omega (arith, same)) fits (λ y j. ground (arith, k.agrees.above y j)) in
        rw (eq, advance)
          (refl, record { agrees = a; room = rw (s ∙ same) k.room; next_fresh = f }, l, s ∙ same)

    kept : RollingNonceWindow T
    kept = record w { window = cleared }

    later_lem :
        used x ≡ false
        → w.lower_bound ≤ x
        → x < upper w
        → x ≢ w.lower_bound
        → Accepted used w x (valid, kept)
    unfolding kept
    later_lem h l m d =
        let same = laws.size-get_invalidate_at w.window (modulo x (b.size w.window)) in
        (
          refl,
          record {
            agrees = Agrees-cleared l m;
            room = rw same k.room;
            next_fresh = ground (arith, k.next_fresh);
          },
          omega arith,
          same,
        )

    is_valid-eq_later :
        used x ≡ false
        → w.lower_bound ≤ x
        → x < upper w
        → x ≢ w.lower_bound
        → is_valid b w x ≡ (valid, kept)
    unfolding is_valid kept
    is_valid-eq_later h l m d = ground (arith, in_bounds l m, fresh_bit l m)

    is_valid-eq_first :
        used x ≡ false → x ≡ w.lower_bound → x < upper w → is_valid b w x ≡ advance b w cleared x
    unfolding is_valid
    is_valid-eq_first h e m = ground (arith, in_bounds (omega arith) m, fresh_bit (omega arith) m)

    is_valid-eq_used :
        used x ≡ true
        → w.lower_bound ≤ x
        → x < upper w
        → is_valid b w x ≡ (invalid (repeated_access x), kept)
    unfolding is_valid kept
    is_valid-eq_used h l m = ground (arith, in_bounds l m, fresh_bit l m)

    is_valid-eq_outside :
        (x < w.lower_bound) ⊎ (upper w ≤ x)
        → is_valid b w x ≡ (invalid (out_of_bounds_access x w.lower_bound (upper w)), w)
    unfolding is_valid
    is_valid-eq_outside h =
        ground (arith, out_of_bounds h, mod-eq_of_lt {n = upper w} {m = u64_mod} fits)

    is_valid_fresh : used x ≡ false → x < upper w → Accepted used w x (is_valid b w x)
    is_valid_fresh h m =
        let l = first_fresh h in
        elim (ℕ_discrete x w.lower_bound) [
          | yes e ↦ rw (is_valid-eq_first h e m) (advance_lem h e m)
          | no d ↦ rw (is_valid-eq_later h l m d) (later_lem h l m d)
        ]

    used_lem :
        used x ≡ true
        → w.lower_bound ≤ x
        → x < upper w
        → Refused used w (invalid (repeated_access x), kept)
    unfolding kept
    used_lem h l m =
        let same = laws.size-get_invalidate_at w.window (modulo x (b.size w.window)) in
        (
          λ e. cc,
          record {
            agrees = record {
              below = k.agrees.below;
              slots = λ y i j. rw same (ground (arith, cleared-slot l m y i (rw same at j)));
              above = λ y j. k.agrees.above y (rw same at j);
            };
            room = rw same k.room;
            next_fresh = k.next_fresh;
          },
          refl,
          same,
        )

    is_valid_used : used x ≡ true → Refused used w (is_valid b w x)
    is_valid_used h = elim (dec_lt x w.lower_bound) [
      | yes p ↦ rw (is_valid-eq_outside (inl p)) (λ e. cc, k, refl, refl)
      | no p ↦ elim (dec_lt x (upper w)) [
        | yes q ↦ rw (is_valid-eq_used h (omega arith) q) (used_lem h (omega arith) q)
        | no q ↦ rw (is_valid-eq_outside (inr (omega arith))) (λ e. cc, k, refl, refl)
      ]
    ]

    is_valid_beyond : upper w ≤ x → Refused used w (is_valid b w x)
    is_valid_beyond l = rw (is_valid-eq_outside (inr l)) (λ e. cc, k, refl, refl)

    -- For any bit store that keeps the promises of the trait, and a window that tracks a set of
    -- used nonces and whose end does not pass a u64, a call accepts a nonce exactly if it is unused
    -- and below the upper bound of the window. It then marks that nonce and no other and keeps
    -- tracking, and rolls the lower bound at most to the old upper bound; a refused call leaves the
    -- set and the lower bound as they were. The loop always ends within its fuel.
    pub is_valid_lem :
        ((used x ≡ false) × (x < upper w) × Accepted used w x (is_valid b w x))
        ⊎ (((used x ≡ true) ⊎ (upper w ≤ x)) × Refused used w (is_valid b w x))
    is_valid_lem = elim (Bool-cases (used x)) [
      | inl old ↦ inr (inl old, is_valid_used old)
      | inr new ↦ elim (dec_lt x (upper w)) [
        | yes p ↦ inl (new, p, is_valid_fresh new p)
        | no p ↦ inr (inr (omega arith), is_valid_beyond (omega arith))
      ]
    ]
