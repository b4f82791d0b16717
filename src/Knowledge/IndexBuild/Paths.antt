-- ===== src/Knowledge/IndexBuild/Paths.antt =====
-- The histories of an index build.
use knowledage_base_assistan.Prelude.{◌≡◌, refl, Bool, true, false, List, [], ◌∷◌, arith}
use knowledage_base_assistan.Knowledge.IndexBuild.{
  IndexBuildStatus, created, chunking, embedding, writing, validating, ready, active,
  is_legal_index_build_transition,
}

pub data History : IndexBuildStatus → List IndexBuildStatus → IndexBuildStatus → Type 0 where
  rest : {s : IndexBuildStatus} → History s [] s
  advance :
      {s t u : IndexBuildStatus} {path : List IndexBuildStatus}
      → is_legal_index_build_transition s t ≡ true
      → History t path u
      → History s (t ∷ path) u

-- The states on the way to ACTIVE, with the way that is left.
may_activate : IndexBuildStatus → Bool
may_activate created = true
may_activate chunking = true
may_activate embedding = true
may_activate writing = true
may_activate validating = true
may_activate ready = true
may_activate active = true
may_activate _ = false

route : IndexBuildStatus → List IndexBuildStatus
route created = chunking ∷ embedding ∷ writing ∷ validating ∷ ready ∷ active ∷ []
route chunking = embedding ∷ writing ∷ validating ∷ ready ∷ active ∷ []
route embedding = writing ∷ validating ∷ ready ∷ active ∷ []
route writing = validating ∷ ready ∷ active ∷ []
route validating = ready ∷ active ∷ []
route ready = active ∷ []
route _ = []

step_on_route :
    (s t : IndexBuildStatus)
    → is_legal_index_build_transition s t ≡ true
    → may_activate t ≡ true
    → (may_activate s ≡ true) × (route s ≡ t ∷ route t)
unfolding is_legal_index_build_transition may_activate route
step_on_route s t h k = ground arith

on_route :
    {s u : IndexBuildStatus} {path : List IndexBuildStatus}
    → History s path u
    → u ≡ active
    → (may_activate s ≡ true) × (path ≡ route s)
unfolding may_activate route
on_route rest e = rw e (refl, refl)
on_route (advance {s = s} {t = t} h r) e =
    let (m, p) = on_route r e in let (n, q) = step_on_route s t h m in (n, rw (q, p))

-- A build that becomes ACTIVE passed every stage, in order, once, and nothing else.
pub activation_path :
    {path : List IndexBuildStatus}
    → History created path active
    → path ≡ chunking ∷ embedding ∷ writing ∷ validating ∷ ready ∷ active ∷ []
unfolding route
activation_path h = (on_route h refl).1
