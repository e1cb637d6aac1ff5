-- ===== src/Types/State/Laws.antt =====
-- The transition graph of a job's state.
use matri_xpost.Prelude.{
  ◌≡◌, refl, ◌≢◌, ◌⊎◌, List, [], ◌∷◌, ok, arith, ◌>>=◌, >>=-eq-ok, Elem, here, there,
}
use matri_xpost.Error.{Fallible}
use matri_xpost.Types.Enums.{PublishState, dispatching, published, failed, unavailable}
use matri_xpost.Types.State.{transition}

-- A job taken through a list of states, each by `transition`.
unfoldable pub walk : PublishState → List PublishState → Fallible PublishState
walk s [] = ok s
walk s (t ∷ ts) = do u ← transition s t; walk u ts

abbrev pub IsTerminal : PublishState → Type 0
IsTerminal s = (s ≡ published) ⊎ ((s ≡ failed) ⊎ (s ≡ unavailable))

terminal_refuses : (s t u : PublishState) → IsTerminal s → transition s t ≢ ok u
unfolding transition
terminal_refuses s t u h e = ground arith

transition_goes : (s t u : PublishState) → transition s t ≡ ok u → u ≡ t
unfolding transition
transition_goes s t u e = ground arith

-- A job that is published, failed or unavailable is taken nowhere else: the only list of states
-- that succeeds from there is the empty one.
pub walk_terminal :
    (s : PublishState) (ts : List PublishState) (u : PublishState)
    → IsTerminal s
    → walk s ts ≡ ok u
    → (ts ≡ []) × (u ≡ s)
unfolding walk
walk_terminal s [] u h e = (refl, cc e)
walk_terminal s (t ∷ ts) u h e =
    let (v, stepped, rest) = >>=-eq-ok (transition s t) _ e in
    absurd (terminal_refuses s t v h stepped)

into_published : (s : PublishState) → transition s published ≡ ok published → s ≡ dispatching
unfolding transition
into_published s e = ground arith

-- A job that is not yet dispatching or published becomes published only through dispatching.
pub walk_published :
    (s : PublishState) (ts : List PublishState)
    → s ≢ dispatching
    → s ≢ published
    → walk s ts ≡ ok published
    → Elem dispatching ts
unfolding walk
walk_published s [] not_d not_p e = absurd (not_p (cc e))
walk_published s (dispatching ∷ ts) not_d not_p e = here
walk_published s (published ∷ ts) not_d not_p e =
    let (v, stepped, rest) = >>=-eq-ok (transition s published) _ e in
    absurd (not_d (into_published s (cc (stepped, transition_goes s published v stepped))))
walk_published s (t ∷ ts) not_d not_p e =
    let (v, stepped, rest) = >>=-eq-ok (transition s t) _ e in
    there (walk_published t ts (λ d. cc d) (λ p. cc p) (cc (rest, transition_goes s t v stepped)))
