-- ===== src/Careers/Pipeline.antt =====
-- The status pipeline over any sequence of the operations of
-- src/modules/careers/application.service.ts, and what else may happen between them.
pub mod Pruning
pub mod Bounds
use all_service_api.Common.{any, All, ℕ, ◌*◌, String, ◌≡◌, ◌≢◌, true, Option, List, [], ◌∷◌, Memᴰ}
use all_service_api.Careers.Status.{is_terminal, ApplicationStatus}
use all_service_api.Careers.State.{Careers, Application}
use all_service_api.Careers.Application.{
  CareersEnv, SubmitApplicationDto, StoredFile, Drawn, submit, change_status, withdraw,
  bulk_change_status, prune_draft_applications,
}
use all_service_api.Careers.Application.Trail.{AreConsistent}
use all_service_api.Careers.Application.Evolution.{Evolves-AreConsistent, Evolves-terminal}
use all_service_api.Careers.Application.Steps.{change_status-Evolves, withdraw-Evolves}
use all_service_api.Careers.Application.Submission.{submit-Evolves}
use all_service_api.Careers.Pipeline.Pruning.{prune-AreConsistent, prune-terminal}

abbrev pub IsConsistent : Careers → Type 0
IsConsistent s = AreConsistent s.applications s.history

-- One operation; a new application's identifier is one that no application has.
pub data Step (env : CareersEnv) (s s' : Careers) : Type 0 where
  submission :
      (dto : SubmitApplicationDto) (ip : String) (file : Option StoredFile) (drawn : Drawn)
      → All (λ x. x.id ≢ drawn.id) s.applications
      → s' ≡ (submit env dto ip file drawn s).1
      → Step env s s'
  change :
      (id : String) (new_status : ApplicationStatus) (by : String) (notes : Option String)
      → s' ≡ (change_status env id new_status by notes s).1
      → Step env s s'
  bulk :
      (ids : List String) (new_status : ApplicationStatus) (by : String) (notes : Option String)
      → s' ≡ (bulk_change_status env ids new_status by notes s).1
      → Step env s s'
  withdrawal : (id : String) → s' ≡ (withdraw env id s).1 → Step env s s'
  pruning : (now : ℕ) → s' ≡ (prune_draft_applications env now s).1 → Step env s s'
  -- Whatever leaves the two tables alone: postings, codes, links, events.
  elsewhere : s'.applications ≡ s.applications → s'.history ≡ s.history → Step env s s'

pub data Reach (env : CareersEnv) (s : Careers) : Careers → Type 0 where
  here : Reach env s s
  next : {t u : Careers} → Reach env s t → Step env t u → Reach env s u

module _ (env : CareersEnv) where
  bulk-IsConsistent :
      (ids : List String) (new_status : ApplicationStatus) (by : String) (notes : Option String)
      (s : Careers)
      → IsConsistent s
      → IsConsistent (bulk_change_status env ids new_status by notes s).1
  unfolding bulk_change_status
  bulk-IsConsistent [] new_status by notes s c = c
  bulk-IsConsistent (id ∷ ids) new_status by notes s c =
      bulk-IsConsistent ids new_status by notes (change_status env id new_status by notes s).1
        (Evolves-AreConsistent _ _ _ _ (change_status-Evolves env id new_status by notes s) c)

  bulk-terminal :
      (ids : List String) (new_status : ApplicationStatus) (by : String) (notes : Option String)
      (s : Careers) (x : Application)
      → IsConsistent s
      → Memᴰ x s.applications
      → is_terminal x.status ≡ true
      → Memᴰ x (bulk_change_status env ids new_status by notes s).1.applications
  unfolding bulk_change_status
  bulk-terminal [] new_status by notes s x c m t = m
  bulk-terminal (id ∷ ids) new_status by notes s x c m t =
      let e = change_status-Evolves env id new_status by notes s in
      bulk-terminal ids new_status by notes (change_status env id new_status by notes s).1 x
        (Evolves-AreConsistent _ _ _ _ e c) (Evolves-terminal _ _ _ _ x e c m t) t

  Step-IsConsistent : {s s' : Careers} → Step env s s' → IsConsistent s → IsConsistent s'
  Step-IsConsistent {s} (submission dto ip file drawn fresh e) c =
      rw e (Evolves-AreConsistent _ _ _ _ (submit-Evolves env dto ip file drawn s fresh) c)
  Step-IsConsistent {s} (change id new_status by notes e) c =
      rw e (Evolves-AreConsistent _ _ _ _ (change_status-Evolves env id new_status by notes s) c)
  Step-IsConsistent {s} (bulk ids new_status by notes e) c =
      rw e (bulk-IsConsistent ids new_status by notes s c)
  Step-IsConsistent {s} (withdrawal id e) c =
      rw e (Evolves-AreConsistent _ _ _ _ (withdraw-Evolves env id s) c)
  Step-IsConsistent {s} (pruning now e) c = rw e (prune-AreConsistent env now s c)
  Step-IsConsistent {s} (elsewhere e k) c = rw (e, k) c

  -- From consistent tables, whatever the operations and their order, the tables stay consistent:
  -- each application's history rows lead from draft to its status by moves of the pipeline, each
  -- where the one before it ended, and every history row belongs to an application.
  pub Reach-IsConsistent : {s s' : Careers} → Reach env s s' → IsConsistent s → IsConsistent s'
  Reach-IsConsistent here c = c
  Reach-IsConsistent (next r st) c = Step-IsConsistent st (Reach-IsConsistent r c)

  Step-terminal :
      {s s' : Careers} (x : Application)
      → Step env s s'
      → IsConsistent s
      → Memᴰ x s.applications
      → is_terminal x.status ≡ true
      → Memᴰ x s'.applications
  Step-terminal {s} x (submission dto ip file drawn fresh e) c m t =
      rw e (Evolves-terminal _ _ _ _ x (submit-Evolves env dto ip file drawn s fresh) c m t)
  Step-terminal {s} x (change id new_status by notes e) c m t =
      rw e (Evolves-terminal _ _ _ _ x (change_status-Evolves env id new_status by notes s) c m t)
  Step-terminal {s} x (bulk ids new_status by notes e) c m t =
      rw e (bulk-terminal ids new_status by notes s x c m t)
  Step-terminal {s} x (withdrawal id e) c m t =
      rw e (Evolves-terminal _ _ _ _ x (withdraw-Evolves env id s) c m t)
  Step-terminal {s} x (pruning now e) c m t = rw e (prune-terminal env now s x m t)
  Step-terminal {s} x (elsewhere e k) c m t = rw e m

  -- An application that is hired, rejected or withdrawn keeps its whole row, whatever operations
  -- follow.
  pub Reach-terminal :
      {s s' : Careers} (x : Application)
      → Reach env s s'
      → IsConsistent s
      → Memᴰ x s.applications
      → is_terminal x.status ≡ true
      → Memᴰ x s'.applications
  Reach-terminal x here c m t = m
  Reach-terminal x (next r st) c m t =
      Step-terminal x st (Reach-IsConsistent r c) (Reach-terminal x r c m t) t
