-- ===== src/Utils/Lru/Chain/Attach.antt =====
-- `attach` of src/utils/lru.rs, which puts a node in front of the chain.
use kite_sql.Prelude.{ℕ, ◌≡◌, ◌≢◌, sym, ◌∙◌, Option, none, some, List, [], ◌∷◌, arith}
use mathlib.Core.Path.{subst}
use kite_sql.Utils.Lru.{Links, attach}
use kite_sql.Utils.Lru.Chain.{NotIn, Chain, IsChain}

module _ (l : Links) (p h : ℕ) (at_h : l.head ≡ some h) where
  attach_prev : (e : ℕ) → e ≢ p → e ≢ h → (attach l p).prev e ≡ l.prev e
  unfolding attach
  attach_prev e not_p not_h = ground arith

  attach_prev_at : h ≢ p → (attach l p).prev h ≡ some p
  unfolding attach
  attach_prev_at not_p = ground arith

  attach_next : (e : ℕ) → e ≢ p → (attach l p).next e ≡ l.next e
  unfolding attach
  attach_next e not_p = ground arith

  attach_node :
      ((attach l p).head ≡ some p)
      × ((attach l p).prev p ≡ none)
      × ((attach l p).next p ≡ some h)
      × ((attach l p).tail ≡ l.tail)
  unfolding attach
  attach_node = (ground arith, ground arith, ground arith, ground arith)

  rest_attached :
      (b : Option ℕ) (ps : List ℕ) (t : Option ℕ)
      → NotIn p ps
      → NotIn h ps
      → Chain l.prev l.next b ps t
      → Chain (attach l p).prev (attach l p).next b ps t
  rest_attached b [] t out other c = c
  rest_attached b (x ∷ xs) t (out, outs) (other, others) (c1, c2, c3) = (
    attach_prev x (λ e. out (sym e)) (λ e. other (sym e)) ∙ c1,
    attach_next x (λ e. out (sym e)) ∙ c2,
    rest_attached (some x) xs t outs others c3,
  )

attach_empty :
    (l : Links) (p : ℕ)
    → l.head ≡ none
    → ((attach l p).head ≡ some p)
      × ((attach l p).prev p ≡ none)
      × ((attach l p).next p ≡ none)
      × ((attach l p).tail ≡ some p)
unfolding attach
attach_empty l p h = (ground arith, ground arith, ground arith, ground arith)

-- `attach` of a node that is not in such a chain puts it in front of the others.
pub IsChain-attach :
    (l : Links) (p : ℕ) (ps : List ℕ) → IsChain l ps → NotIn p ps → IsChain (attach l p) (p ∷ ps)
IsChain-attach l p [] (h, c, d) out =
    let (a1, a2, a3, a4) = attach_empty l p h in (a1, (a2, a3, a4), (tt, tt))
IsChain-attach l p (x ∷ xs) (h, c, d) (out, outs) =
    let (a1, a2, a3, a4) = attach_node l p x h in
    (
      a1,
      (
        a2,
        a3,
        (
          attach_prev_at l p x h (λ e. out (sym e)),
          attach_next l p x h x (λ e. out (sym e)) ∙ c.1,
          subst (Chain (attach l p).prev (attach l p).next (some x) xs) (sym a4)
              (rest_attached l p x h (some x) xs l.tail outs d.0 c.2),
        ),
      ),
      ((out, outs), d),
    )
