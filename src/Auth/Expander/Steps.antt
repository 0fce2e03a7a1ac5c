-- ===== src/Auth/Expander/Steps.antt =====
-- internal/bff/auth.go, `expand`: what one call of `visit` does, composed from its parts.
use servicer.Prelude.{
  ◌<◌, ◌≤◌, String, false, not, List, [], ◌∷◌, some, ◌==◌, ◌≡◌, ◌≢◌, refl, contains, lookup, arith,
  eq_iff, eq_refl, ◌⊎◌, inl, inr, Memᴰ, map, length-keep-le, length-keep-lt, Bool-cases, sym, subst,
  ◌∙◌, mem_singleton,
}
use servicer.Auth.Expander.{RoleSummary, Index, Walk, mark}
use servicer.Auth.Expander.Reach.{
  IsSeen, Agrees-mark, children, Reaches, here, next, Reaches-root, Reaches-trans, Visited, unseen,
}

IsSeen-mark : (w : Walk) (name n : String) → IsSeen (mark w name) n → (name ≡ n) ⊎ IsSeen w n
unfolding mark
IsSeen-mark w name n h = ground (arith, eq_iff name n)

IsSeen-of_mark : (w : Walk) (name n : String) → IsSeen w n → IsSeen (mark w name) n
unfolding mark
IsSeen-of_mark w name n h = ground arith

IsSeen-mark_self : (w : Walk) (name : String) → IsSeen (mark w name) name
unfolding mark
IsSeen-mark_self w name = rw (eq_refl name)

mem-keys :
    (name : String) (index : Index) {role : RoleSummary}
    → lookup name index ≡ some role
    → Memᴰ name (map (λ (e : String × RoleSummary). e.0) index)
unfolding lookup
mem-keys name [] h = cc
mem-keys name ((key, role) ∷ index) h = elim (Bool-cases (key == name)) [
  | inl e ↦ Memᴰ.head (sym ((eq_iff key name).0 e))
  | inr e ↦ Memᴰ.tail (mem-keys name index (rw (e, lookup) at h))
]

module _ (index : Index) (scope : String) where
  pub unseen_mono :
      (w w' : Walk)
      → ((n : String) → IsSeen w n → IsSeen w' n)
      → unseen index scope w' ≤ unseen index scope w
  unseen_mono w w' keeps =
      length-keep-le (λ k. not (contains k w.seen)) (λ k. not (contains k w'.seen)) _
        λ k h. ground (arith, keeps k)

  pub unseen-mark :
      (w : Walk) (name : String) {role : RoleSummary}
      → contains name w.seen ≡ false
      → lookup name index ≡ some role
      → unseen index scope (mark w name) < unseen index scope w
  unseen-mark w name fresh found =
      length-keep-lt (λ k. not (contains k w.seen)) (λ k. not (contains k (mark w name).seen)) _
        (λ k h. ground (arith, IsSeen-of_mark w name k)) (mem-keys name index found) (ground arith)
        (ground (arith, IsSeen-mark_self w name))

  pub Visited-refl : (w : Walk) → Visited index scope w w []
  Visited-refl w = record {
    keeps = λ n h. h;
    covers = λ n m h. elim m [ ];
    closed = λ n h. inl h;
    sound = λ n h. inl h;
    agrees = λ a. a;
  }

  -- A visit of a role that is already in, or has no name, changes nothing.
  pub Visited-skip :
      (w : Walk) (name : String) → (name ≢ "" → IsSeen w name) → Visited index scope w w (name ∷ [])
  Visited-skip w name seen = record {
    keeps = λ n h. h;
    covers = covers;
    closed = λ n h. inl h;
    sound = λ n h. inl h;
    agrees = λ a. a;
  }
    where
      covers : (n : String) → Memᴰ n (name ∷ []) → n ≢ "" → IsSeen w n
      covers n m h = let e = mem_singleton m in rw e (seen (λ f. h (e ∙ f)))

  module _ {w u v : Walk} {name : String} {names : List String} where
    pub Visited-cons :
        Visited index scope w u (name ∷ [])
        → Visited index scope u v names
        → Visited index scope w v (name ∷ names)
    Visited-cons a b = record {
      keeps = λ n h. b.keeps n (a.keeps n h);
      covers = covers;
      closed = closed;
      sound = sound;
      agrees = λ h. b.agrees (a.agrees h);
    }
      where
        covers : (n : String) → Memᴰ n (name ∷ names) → n ≢ "" → IsSeen v n
        covers n (Memᴰ.head e) h = b.keeps n (a.covers n (Memᴰ.head e) h)
        covers n (Memᴰ.tail m) h = b.covers n m h

        closed :
            (n : String)
            → IsSeen v n
            → IsSeen w n ⊎ ((c : String) → Memᴰ c (children index scope n) → c ≢ "" → IsSeen v c)
        closed n h = elim (b.closed n h) [
          | inl k ↦ elim (a.closed n k) [
            | inl l ↦ inl l
            | inr g ↦ inr (λ c m ne. b.keeps c (g c m ne))
          ]
          | inr g ↦ inr g
        ]

        sound :
            (n : String)
            → IsSeen v n
            → IsSeen w n ⊎ ((t : String) × Memᴰ t (name ∷ names) × Reaches index scope t n)
        sound n h = elim (b.sound n h) [
          | inl k ↦ elim (a.sound n k) [
            | inl l ↦ inl l
            | inr (t, m, r) ↦ inr (name, Memᴰ.head refl, rw (mem_singleton m) at r)
          ]
          | inr (t, m, r) ↦ inr (t, Memᴰ.tail m, r)
        ]

  pub Visited-enter :
      {w v : Walk} {name : String}
      → contains name w.seen ≡ false
      → name ≢ ""
      → Visited index scope (mark w name) v (children index scope name)
      → Visited index scope w v (name ∷ [])
  Visited-enter {w} {v} {name} fresh named b = record {
    keeps = λ n h. b.keeps n (IsSeen-of_mark w name n h);
    covers = λ n m h. rw (mem_singleton m) (b.keeps name (IsSeen-mark_self w name));
    closed = closed;
    sound = sound;
    agrees = λ a. b.agrees (Agrees-mark w name a fresh);
  }
    where
      closed :
          (n : String)
          → IsSeen v n
          → IsSeen w n ⊎ ((c : String) → Memᴰ c (children index scope n) → c ≢ "" → IsSeen v c)
      closed n h = elim (b.closed n h) [
        | inl k ↦ elim (IsSeen-mark w name n k) [
          | inl e ↦ inr (
              subst (λ n. (c : String) → Memᴰ c (children index scope n) → c ≢ "" → IsSeen v c) e
                b.covers)
          | inr l ↦ inl l
        ]
        | inr g ↦ inr g
      ]

      sound :
          (n : String)
          → IsSeen v n
          → IsSeen w n ⊎ ((t : String) × Memᴰ t (name ∷ []) × Reaches index scope t n)
      sound n h = elim (b.sound n h) [
        | inl k ↦ elim (IsSeen-mark w name n k) [
          | inl e ↦ inr (name, Memᴰ.head refl, subst (Reaches index scope name) e (here named))
          | inr l ↦ inl l
        ]
        | inr (t, m, r) ↦ inr (
          name,
          Memᴰ.head refl,
          Reaches-trans index scope (next (here named) m (Reaches-root index scope r)) r,
        )
      ]
