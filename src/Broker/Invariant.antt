-- ===== src/Broker/Invariant.antt =====
-- What holds of the positions of `PaperBroker` between calls: they stand under their own symbols,
-- each symbol once, with a positive quantity, and no symbol is both long and short.
use pypoc.Prelude.{
  String, ◌≡◌, refl, ◌⊎◌, inl, inr, false, Option, none, some, arith, string_eq, Bool-cases,
  Option-cases,
}
use pypoc.Prelude.Int.{ℤ, pos, ◌+ℤ◌, ◌-ℤ◌, ◌<ℤ◌, int_laws, -ℤ_parts, leb_ℤ}
use pypoc.Prelude.Dict.{
  Dict, lookup, insert, erase, Distinct, Entries, lookup-insert, lookup-erase_ne, lookup-erase_self,
  insert-Distinct, erase-Distinct, lookup-Entries, insert-Entries, erase-Entries,
}
use pypoc.Numbers.{Float}
use pypoc.Types.{Position}
use pypoc.Broker.State.{PaperBroker}
use pypoc.Broker.Positions.{
  is_zero_int, reduced, open_or_add_long, open_short, close_long, cover_short,
}

below_left : (n qty : ℤ) → leb_ℤ n qty ≡ false → pos 0 <ℤ n -ℤ qty
below_left n qty h = ground (arith, -ℤ_parts n qty)

above_sum : (n qty : ℤ) → pos 0 <ℤ n → pos 0 <ℤ qty → pos 0 <ℤ n +ℤ qty
above_sum n qty h k = omega int_laws

module _ {F : Type 0} where
  abbrev pub Held : String → Position F → Type 0
  Held k p = (p.symbol ≡ k) × (pos 0 <ℤ p.qty)

  pub record AreValid (longs shorts : Dict String (Position F)) : Type 0 where
    pub long_keys : Distinct longs
    pub short_keys : Distinct shorts
    pub long_held : Entries Held longs
    pub short_held : Entries Held shorts
    pub apart : (k : String) → (lookup k longs ≡ none) ⊎ (lookup k shorts ≡ none)

  pub record IsValid (b : PaperBroker F) : Type 0 where
    pub sides : AreValid b.positions b.short_positions

  pub AreValid-swap : {l s : Dict String (Position F)} → AreValid l s → AreValid s l
  AreValid-swap v = record {
    long_keys = v.short_keys;
    short_keys = v.long_keys;
    long_held = v.short_held;
    short_held = v.long_held;
    apart = λ k. elim (v.apart k) [ inl e ↦ inr e | inr e ↦ inl e ];
  }

  pub insert-AreValid :
      (k : String) (p : Position F) {l s : Dict String (Position F)}
      → Held k p
      → lookup k s ≡ none
      → AreValid l s
      → AreValid (insert k p l) s
  insert-AreValid k p {l} {s} h free v = record {
    long_keys = insert-Distinct k p l v.long_keys;
    short_keys = v.short_keys;
    long_held = insert-Entries Held k p l v.long_held h;
    short_held = v.short_held;
    apart = λ j. ground (arith, lookup-insert k j p l, string_eq.beq_iff k j, v.apart j);
  }

  erase-AreValid :
      (k : String) {l s : Dict String (Position F)} → AreValid l s → AreValid (erase k l) s
  erase-AreValid k {l} {s} v = record {
    long_keys = erase-Distinct k l v.long_keys;
    short_keys = v.short_keys;
    long_held = erase-Entries Held k l v.long_held;
    short_held = v.short_held;
    apart = λ j. ground (
      arith,
      lookup-erase_ne k j l,
      lookup-erase_self k l v.long_keys,
      string_eq.beq_iff k j,
      v.apart j,
    );
  }

  -- The other side is empty where one holds a position.
  pub apart_of :
      (k : String) {p : Position F} {l s : Dict String (Position F)}
      → AreValid l s
      → lookup k l ≡ some p
      → lookup k s ≡ none
  apart_of k v e = ground (arith, v.apart k)

  reduced-AreValid :
      (k : String) (qty : ℤ) (p : Position F) {l s : Dict String (Position F)}
      → AreValid l s
      → lookup k l ≡ some p
      → AreValid (reduced k qty p l) s
  reduced-AreValid k qty p {l} {s} v e = elim (Bool-cases (leb_ℤ p.qty qty)) [
    | inl all ↦ rw all (erase-AreValid k v)
    | inr part ↦ rw part (
        insert-AreValid k _ ((lookup-Entries Held k l v.long_held e).0, below_left p.qty qty part)
          (apart_of k v e) v)
  ]

module _ {F : Type 0} ⦃f : Float F⦄ where
  pub close_long-IsValid :
      (k : String) (qty : ℤ) (price charges : F) (why : String) (b : PaperBroker F)
      → IsValid b
      → IsValid (close_long k qty price charges why b).1
  unfolding close_long
  close_long-IsValid k qty price charges why b v = elim (Option-cases (lookup k b.positions)) [
    | inl e ↦ rw (e, close_long) v
    | inr (p, e) ↦ rw (e, close_long) (record { sides = reduced-AreValid k qty p v.sides e })
  ]

  pub cover_short-IsValid :
      (k : String) (qty : ℤ) (price charges : F) (why : String) (b : PaperBroker F)
      → IsValid b
      → IsValid (cover_short k qty price charges why b).1
  unfolding cover_short
  cover_short-IsValid k qty price charges why b v =
      elim (Option-cases (lookup k b.short_positions)) [
        | inl e ↦ rw (e, cover_short) v
        | inr (p, e) ↦
            rw (e, cover_short)
              (record {
                sides = AreValid-swap (reduced-AreValid k qty p (AreValid-swap v.sides) e);
              })
      ]

  pub open_or_add_long-IsValid :
      (k : String) (qty : ℤ) (price stop : F) (target : Option F) (strategy : String)
      (b : PaperBroker F)
      → IsValid b
      → pos 0 <ℤ qty
      → lookup k b.short_positions ≡ none
      → IsValid (open_or_add_long k qty price stop target strategy b).1
  unfolding open_or_add_long
  open_or_add_long-IsValid k qty price stop target strategy b v h free =
      elim (Option-cases (lookup k b.positions)) [
        | inl e ↦
            rw (e, open_or_add_long) (record { sides = insert-AreValid k _ (refl, h) free v.sides })
        | inr (p, e) ↦ elim (Bool-cases (is_zero_int (p.qty +ℤ qty))) [
          | inl none_left ↦ rw (e, none_left, open_or_add_long) v
          | inr some_left ↦
              let (key, held) = lookup-Entries Held k b.positions v.sides.long_held e in
              rw (e, some_left, open_or_add_long)
                (record {
                  sides = insert-AreValid k _ (key, above_sum p.qty qty held h) free v.sides;
                })
        ]
      ]

  pub open_short-IsValid :
      (k : String) (qty : ℤ) (price stop : F) (target : Option F) (strategy : String)
      (b : PaperBroker F)
      → IsValid b
      → pos 0 <ℤ qty
      → lookup k b.positions ≡ none
      → IsValid (open_short k qty price stop target strategy b)
  unfolding open_short
  open_short-IsValid k qty price stop target strategy b v h free = record {
    sides = AreValid-swap (insert-AreValid k _ (refl, h) free (AreValid-swap v.sides));
  }
