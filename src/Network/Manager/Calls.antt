-- ===== src/Network/Manager/Calls.antt =====
-- docker_network: what a call of the client that succeeds has done.
use openstack_osa_office_clu.Prelude.{Result, ok, err, ◌≡◌, refl, sym, ap, ◌∙◌, arith}
use openstack_osa_office_clu.Prelude.Programs.{modify, ◌>>◌, bind-eq-ok}
use openstack_osa_office_clu.Network.Manager.{Daemon, Session, posts, from_api}

pub both_parts : {A B : Type 0} {p : A × B} {a : A} {s : B} → p.0 ≡ a → s ≡ p.1 → p ≡ (a, s)
both_parts e f = λ i. (e i, sym f i)

pub from_api-ok :
    (D : Daemon) {A : Type 0} (r : Result D.ApiError A) {a : A} → from_api D r ≡ ok a → r ≡ ok a
from_api-ok D (ok b) h = ground arith
from_api-ok D (err x) h = absurd (ground arith)

-- A call, and a change of the manager behind it.
pub posts_then_modify-ok :
    (D : Daemon) (f : D.State → Result D.ApiError (Unit {0}) × D.State)
    (g : Session D.State → Session D.State) (s s' : Session D.State)
    → (posts D f >> modify g) s ≡ (ok tt, s')
    → (f s.daemon ≡ (ok tt, (f s.daemon).1)) × (s' ≡ g (record s { daemon = (f s.daemon).1 }))
posts_then_modify-ok D f g s s' e =
    let (a, u, e1, e2) = bind-eq-ok (λ _. modify g) (posts D f s) e in
    let there : u ≡ record s { daemon = (f s.daemon).1 } = sym (ap (λ x. x.1) e1) in
    (
      both_parts (from_api-ok D (f s.daemon).0 (ap (λ x. x.0) e1)) refl,
      sym (ap (λ x. x.1) e2) ∙ ap g there,
    )
