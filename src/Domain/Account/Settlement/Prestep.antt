-- ===== src/Domain/Account/Settlement/Prestep.antt =====
-- `Account::shared_prestep` (src/domain/account.rs), and what comes behind it.
use nda_takehome.Base.{⊤, Bool, true, false, ◌≡◌, refl, sym, subst, arith, if◌then◌else◌}
use nda_takehome.Base.Outcome.{ok, err, Build, debug, release}
use nda_takehome.Message.{InputMessage}
use nda_takehome.Service.Error.{account_locked}
use nda_takehome.Domain.Account.State.{Account}
use nda_takehome.Domain.Account.Check.{check_invariants}
use nda_takehome.Domain.Account.Operations.{push_history, shared_prestep}
use nda_takehome.Domain.Account.Operations.Unlocked.{AccountAction}
use nda_takehome.Base.Action.{◌>>◌}
use nda_takehome.Domain.Account.Settlement.{Settles, refused, frozen}

-- The step before every operation, when the debug assertions hold.
pub shared_prestep_lem :
    (build : Build) (msg : InputMessage) (acc : Account)
    → check_invariants acc ≡ true
    → shared_prestep build msg acc
      ≡ ((if acc.locked then err account_locked else ok tt), push_history build msg acc)
unfolding shared_prestep
shared_prestep_lem debug msg acc h = ground arith
shared_prestep_lem release msg acc h = refl

pub locked-push_history :
    (build : Build) (msg : InputMessage) (acc : Account)
    → (push_history build msg acc).locked ≡ acc.locked
locked-push_history debug msg acc = refl
locked-push_history release msg acc = refl

after_verdict :
    (msg : InputMessage) (body : AccountAction ⊤) (self : Account)
    → ((u : Account) → u.locked ≡ false → Settles u msg (body u).0 (body u).1)
    → (b : Bool) → self.locked ≡ b
    → let refuse : AccountAction ⊤ = λ a. (if b then err account_locked else ok tt, a) in
      let (r, acc') = (refuse >> body) self in Settles self msg r acc'
after_verdict msg body self h true l = refused (frozen l)
after_verdict msg body self h false u = h self u

-- An operation whose body, behind the shared step, settles the message on every unlocked account.
pub after_prestep :
    (build : Build) (msg : InputMessage) (acc : Account) (body : AccountAction ⊤)
    → check_invariants acc ≡ true
    → ((u : Account) → u.locked ≡ false → Settles u msg (body u).0 (body u).1)
    → let (r, acc') = (shared_prestep build msg >> body) acc in
      Settles (push_history build msg acc) msg r acc'
after_prestep build msg acc body checked h =
    subst
      (λ p.
        Settles (push_history build msg acc) msg (((λ _. p) >> body) acc).0
          (((λ _. p) >> body) acc).1)
      (sym (shared_prestep_lem build msg acc checked))
      (after_verdict msg body (push_history build msg acc) h acc.locked
        (locked-push_history build msg acc))
