-- ===== src/Utils/Lru/Chain.antt =====
-- The chain of the nodes of src/utils/lru.rs, from which `detach` takes a node.
pub mod Attach
use kite_sql.Prelude.{
  ℕ, ◌≡◌, ◌≢◌, refl, sym, ap, ◌∙◌, ◌⊎◌, inl, inr, Bool-cases, ◌==◌, if◌then◌else◌, Option, none,
  some, List, [], ◌∷◌, arith,
}
use mathlib.Core.Path.{subst}
use kite_sql.Utils.Lru.{Links, unlink_prev, unlink_next, detach, attach}

-- The addresses of a chain.
pub data In (p : ℕ) : List ℕ → Type 0 where
  here : (ps : List ℕ) → In p (p ∷ ps)
  there : (x : ℕ) (ps : List ℕ) → In p ps → In p (x ∷ ps)

abbrev pub NotIn : ℕ → List ℕ → Type 0
NotIn p [] = Unit
NotIn p (x ∷ xs) = (p ≢ x) × NotIn p xs

abbrev pub Distinct : List ℕ → Type 0
Distinct [] = Unit
Distinct (x ∷ xs) = NotIn x xs × Distinct xs

abbrev pub front : List ℕ → Option ℕ
front [] = none
front (x ∷ xs) = some x

-- The list without an address.
unfoldable pub without : ℕ → List ℕ → List ℕ
without p [] = []
without p (x ∷ xs) = let rest = without p xs in if x == p then xs else x ∷ rest

-- From a node on, each is linked with the one before and the one behind; the last is at the end.
abbrev pub Chain : (ℕ → Option ℕ) → (ℕ → Option ℕ) → Option ℕ → List ℕ → Option ℕ → Type 0
Chain before behind b [] l = l ≡ b
Chain before behind b (x ∷ xs) l =
    (before x ≡ b) × (behind x ≡ front xs) × Chain before behind (some x) xs l

abbrev pub IsChain : Links → List ℕ → Type 0
IsChain l ps = (l.head ≡ front ps) × Chain l.prev l.next none ps l.tail × Distinct ps

pub NotIn-In : (x p : ℕ) (ps : List ℕ) → NotIn x ps → In p ps → x ≢ p
NotIn-In x p [] h k = elim k [ ]
NotIn-In x p (_ ∷ _) (h, hs) (here ps) = h
NotIn-In x p (_ ∷ _) (h, hs) (there y ps k) = NotIn-In x p ps hs k

pub none_some : {A : Type 0} {B : Type 0} {x : A} → none ≡ some x → B
none_some h = cc

pub some_injective : {A : Type 0} {x y : A} → some x ≡ some y → x ≡ y
some_injective h = cc

-- What a node of a chain is linked with lies in the chain, or is the node before it.
next-In :
    (prev next : ℕ → Option ℕ) (p r : ℕ) (b : Option ℕ) (ps : List ℕ) (l : Option ℕ)
    → Chain prev next b ps l
    → In p ps
    → next p ≡ some r
    → In r ps
next-In prev next p r b [] l c k e = elim k [ ]
next-In prev next p r b (_ ∷ []) l (c1, c2, c3) (here _) e = cc
next-In prev next p r b (x ∷ y ∷ ys) l (c1, c2, c3) (here _) e =
    there x (y ∷ ys) (subst (λ z. In z (y ∷ ys)) (some_injective (sym c2 ∙ e)) (here ys))
next-In prev next p r b (_ ∷ _) l (c1, c2, c3) (there x ps k) e =
    there x ps (next-In prev next p r (some x) ps l c3 k e)

prev-In :
    (prev next : ℕ → Option ℕ) (p x : ℕ) (ps : List ℕ) (l : Option ℕ)
    → Chain prev next (some x) ps l
    → In p ps
    → (q : ℕ) × (prev p ≡ some q) × (((q ≡ x) × (front ps ≡ some p)) ⊎ In q ps)
prev-In prev next p x [] l c k = elim k [ ]
prev-In prev next p x (_ ∷ _) l (c1, c2, c3) (here ps) = (x, c1, inl (refl, refl))
prev-In prev next p x (_ ∷ _) l (c1, c2, c3) (there y ps k) =
    let (q, at_q, place) = prev-In prev next p y ps l c3 k in
    (
      q,
      at_q,
      elim place [
        | inl (is_y, at_front) ↦ inr (subst (λ z. In z (y ∷ ps)) (sym is_y) (here ps))
        | inr inside ↦ inr (there y ps inside)
      ],
    )

pub without_here : (p : ℕ) (xs : List ℕ) → without p (p ∷ xs) ≡ xs
unfolding without
without_here p xs = ground arith

pub without_there : (p x : ℕ) (xs : List ℕ) → x ≢ p → without p (x ∷ xs) ≡ x ∷ without p xs
unfolding without
without_there p x xs h = ground (arith, h)

-- What `detach` leaves as it was, and what it links anew.
module _ (l : Links) (p : ℕ) where
  detach_next : (e : ℕ) → e ≢ p → l.prev p ≢ some e → (detach l p).next e ≡ l.next e
  unfolding detach unlink_prev unlink_next
  detach_next e h k = ground arith

  detach_next_at : (q : ℕ) → q ≢ p → l.prev p ≡ some q → (detach l p).next q ≡ l.next p
  unfolding detach unlink_prev unlink_next
  detach_next_at q h k = ground arith

  detach_prev :
      (e : ℕ) → e ≢ p → l.prev p ≢ some p → l.next p ≢ some e → (detach l p).prev e ≡ l.prev e
  unfolding detach unlink_prev unlink_next
  detach_prev e h self k = ground arith

  detach_prev_at :
      (r : ℕ) → r ≢ p → l.prev p ≢ some p → l.next p ≡ some r → (detach l p).prev r ≡ l.prev p
  unfolding detach unlink_prev unlink_next
  detach_prev_at r h self k = ground arith

  detach_head_none : l.prev p ≡ none → (detach l p).head ≡ l.next p
  unfolding detach unlink_prev unlink_next
  detach_head_none k = ground arith

  detach_head_some : (q : ℕ) → l.prev p ≡ some q → (detach l p).head ≡ l.head
  unfolding detach unlink_prev unlink_next
  detach_head_some q k = ground arith

  detach_tail_none : l.prev p ≢ some p → l.next p ≡ none → (detach l p).tail ≡ l.prev p
  unfolding detach unlink_prev unlink_next
  detach_tail_none self k = ground arith

  detach_tail_some : (r : ℕ) → l.prev p ≢ some p → l.next p ≡ some r → (detach l p).tail ≡ l.tail
  unfolding detach unlink_prev unlink_next
  detach_tail_some r self k = ground arith

module _ (l : Links) (p : ℕ) (self : l.prev p ≢ some p) where
  -- The part of a chain behind the node and its neighbour.
  rest_chained :
      (b : Option ℕ) (ps : List ℕ) (t : Option ℕ)
      → NotIn p ps
      → ((e : ℕ) → In e ps → l.prev p ≢ some e)
      → ((e : ℕ) → In e ps → l.next p ≢ some e)
      → Chain l.prev l.next b ps t
      → Chain (detach l p).prev (detach l p).next b ps t
  rest_chained b [] t out f g c = c
  rest_chained b (x ∷ xs) t (out, outs) f g (c1, c2, c3) = (
    detach_prev l p x (λ e. out (sym e)) self (g x (here xs)) ∙ c1,
    detach_next l p x (λ e. out (sym e)) (f x (here xs)) ∙ c2,
    rest_chained (some x) xs t outs (λ e k. f e (there x xs k)) (λ e k. g e (there x xs k)) c3,
  )

  next_detached :
      (x : ℕ) (xs : List ℕ)
      → x ≢ p
      → NotIn x xs
      → Distinct xs
      → l.next x ≡ front xs
      → Chain l.prev l.next (some x) xs l.tail
      → In p xs
      → (detach l p).next x ≡ front (without p xs)
  next_detached x [] other out d at_x c k = elim k [ ]
  next_detached x (_ ∷ ys) other out d at_x (c1, c2, c3) (here _) =
      detach_next_at l p x other c1 ∙ c2 ∙ ap front (sym (without_here p ys))
  next_detached x (y ∷ ys) other (out, outs) d at_x (c1, c2, c3) (there _ _ k) =
      let (q, at_q, place) = prev-In l.prev l.next p y ys l.tail c3 k in
      let far : l.prev p ≢ some x = λ e. elim place [
        | inl (is_y, at_front) ↦ out (some_injective (sym e ∙ at_q) ∙ is_y)
        | inr inside ↦ NotIn-In x q ys outs inside (some_injective (sym e ∙ at_q))
      ] in
      detach_next l p x other far
      ∙ at_x
      ∙ ap front (sym (without_there p y ys (NotIn-In y p ys d.0 k)))

  Chain-detach :
      (b : Option ℕ) (ps : List ℕ)
      → Chain l.prev l.next b ps l.tail
      → Distinct ps
      → In p ps
      → ((q : ℕ) → b ≡ some q → NotIn q ps)
      → Chain (detach l p).prev (detach l p).next b (without p ps) (detach l p).tail
  Chain-detach b [] c d k out = elim k [ ]
  Chain-detach b (_ ∷ []) (c1, c2, c3) d (here _) out =
      subst (λ zs. Chain (detach l p).prev (detach l p).next b zs (detach l p).tail)
        (sym (without_here p [])) (detach_tail_none l p self c2 ∙ c1)
  Chain-detach b (_ ∷ r ∷ rs) (c1, c2, c3) d (here _) out =
      let (c4, c5, c6) = c3 in
      let p_r = d.0.0 in
      let p_rs = d.0.1 in
      let r_rs = d.1.0 in
      subst (λ zs. Chain (detach l p).prev (detach l p).next b zs (detach l p).tail)
        (sym (without_here p (r ∷ rs)))
        (
          detach_prev_at l p r (λ e. p_r (sym e)) self c2 ∙ c1,
          detach_next l p r (λ e. p_r (sym e)) (λ e. (out r (sym c1 ∙ e)).1.0 refl) ∙ c5,
          subst (Chain (detach l p).prev (detach l p).next (some r) rs)
              (sym (detach_tail_some l p r self c2))
              (rest_chained (some r) rs l.tail p_rs
                (λ e k h. NotIn-In e e rs (out e (sym c1 ∙ h)).1.1 k refl)
                (λ e k h. NotIn-In r e rs r_rs k (some_injective (sym c2 ∙ h))) c6),
        )
  Chain-detach b (x ∷ xs) (c1, c2, c3) d (there _ _ k) out =
      let x_xs = d.0 in
      let rest = d.1 in
      let other = NotIn-In x p xs x_xs k in
      let behind =
        Chain-detach (some x) xs c3 rest k
          (λ q e. subst (λ z. NotIn z xs) (some_injective e) x_xs) in
      let not_next : l.next p ≢ some x =
        λ e. NotIn-In x x xs x_xs (next-In l.prev l.next p x (some x) xs l.tail c3 k e) refl in
      subst (λ zs. Chain (detach l p).prev (detach l p).next b zs (detach l p).tail)
        (sym (without_there p x xs other))
        (
          detach_prev l p x other self not_next ∙ c1,
          next_detached x xs other x_xs rest c2 c3 k,
          behind,
        )

pub without_cases :
    (p x : ℕ) (xs : List ℕ) → (without p (x ∷ xs) ≡ xs) ⊎ (without p (x ∷ xs) ≡ x ∷ without p xs)
unfolding without
without_cases p x xs = elim (Bool-cases (x == p)) [
  | inl same ↦ inl (ground arith)
  | inr differ ↦ inr (ground arith)
]

pub NotIn-without : (e p : ℕ) (ps : List ℕ) → NotIn e ps → NotIn e (without p ps)
unfolding without
NotIn-without e p [] h = tt
NotIn-without e p (x ∷ xs) (h, hs) = elim (without_cases p x xs) [
  | inl gone ↦ subst (NotIn e) (sym gone) hs
  | inr kept ↦ subst (NotIn e) (sym kept) (h, NotIn-without e p xs hs)
]

Distinct-without : (p : ℕ) (ps : List ℕ) → Distinct ps → Distinct (without p ps)
unfolding without
Distinct-without p [] d = tt
Distinct-without p (x ∷ xs) (h, d) = elim (without_cases p x xs) [
  | inl gone ↦ subst Distinct (sym gone) d
  | inr kept ↦ subst Distinct (sym kept) (NotIn-without x p xs h, Distinct-without p xs d)
]

-- No node of a chain is linked with itself.
prev_other :
    (prev next : ℕ → Option ℕ) (p : ℕ) (b : Option ℕ) (ps : List ℕ) (l : Option ℕ)
    → Chain prev next b ps l
    → Distinct ps
    → In p ps
    → b ≢ some p
    → prev p ≢ some p
prev_other prev next p b [] l c d k h = elim k [ ]
prev_other prev next p b (_ ∷ _) l (c1, c2, c3) d (here _) h = λ e. h (sym c1 ∙ e)
prev_other prev next p b (x ∷ xs) l (c1, c2, c3) d (there _ _ k) h =
    prev_other prev next p (some x) xs l c3 d.1 k (λ e. NotIn-In x p xs d.0 k (some_injective e))

head_detached :
    (l : Links) (p : ℕ) (ps : List ℕ)
    → IsChain l ps
    → In p ps
    → (detach l p).head ≡ front (without p ps)
head_detached l p [] i k = elim k [ ]
head_detached l p (_ ∷ xs) (h, c, d) (here _) =
    detach_head_none l p c.0 ∙ c.1 ∙ ap front (sym (without_here p xs))
head_detached l p (x ∷ xs) (h, c, d) (there _ _ k) =
    let (q, at_q, place) = prev-In l.prev l.next p x xs l.tail c.2 k in
    detach_head_some l p q at_q ∙ h ∙ ap front (sym (without_there p x xs (NotIn-In x p xs d.0 k)))

-- On a chain that is linked in both directions, from the head to the tail, `detach` of a node leaves
-- such a chain of the other nodes in their order.
pub IsChain-detach :
    (l : Links) (p : ℕ) (ps : List ℕ) → IsChain l ps → In p ps → IsChain (detach l p) (without p ps)
IsChain-detach l p ps i k =
    let (h, c, d) = i in
    let self = prev_other l.prev l.next p none ps l.tail c d k none_some in
    (
      head_detached l p ps i k,
      Chain-detach l p self none ps c d k (λ q e. none_some e),
      Distinct-without p ps d,
    )
