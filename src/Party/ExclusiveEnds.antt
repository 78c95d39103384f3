-- ===== src/Party/ExclusiveEnds.antt =====
-- internal/party/party.go: `Remove`, `Close` and `Create` keep `byUser` exact.
use ultimate_game_server.Prelude.{
  ℕ, String, ◌≡◌, refl, sym, ap, ◌∙◌, inl, inr, Bool, true, Option, none, some, [], ◌∷◌, arith,
  if◌then◌else◌, Option-cases, is_zero_ℤ, ℤ, string_key,
}
use ultimate_game_server.Dict.{
  Dict, lookup, has, insert, delete, lookup-insert, lookup-delete, Every, Every-lookup,
}
use ultimate_game_server.Party.Types.{Result-cases, PartyMember, Presence, PartySession, Registry}
use ultimate_game_server.Party.Access.{
  put_party, notify_membership_change, touch, new_member, require_leader,
}
use ultimate_game_server.Party.Membership.{index_member}
use ultimate_game_server.Party.Departure.{dissolve, unindex_member, leave}
use ultimate_game_server.Party.Leadership.{kick, remove, unindex_all, close}
use ultimate_game_server.Party.Label.{normalize_label, validate_label}
use ultimate_game_server.Party.Lifecycle.{leave_before_create, new_party, create_valid, create}
use ultimate_game_server.Party.WellFormed.{touch-IsPartyOk, IsPartyOk}
use ultimate_game_server.Party.Invariant.{IsRegistryOk}
use ultimate_game_server.Party.Preservation.{require_leader-IsPartyOk}
use ultimate_game_server.Party.Index.{holds, IsIndexed-exit}
use ultimate_game_server.Party.LeaveEffect.{leave-cfg, lookup-leave_absent, leave-frees}
use ultimate_game_server.Party.Exclusive.{IndexOk, leave-IndexOk}
use ultimate_game_server.Party.ExclusiveCalls.{require_leader-lookup, put-IndexOk}
use Prim.Native.String.{◌++◌ as concat}

module _ {V : Type 0} where
  kick-IndexOk :
      (pid : String) (target : Presence) (p p' : PartySession V) (r : Registry V)
      → IsPartyOk pid p
      → lookup pid r.parties ≡ some p'
      → p'.members ≡ p.members
      → IndexOk r
      → IndexOk (kick pid target p r).0
  unfolding kick notify_membership_change unindex_member put_party
  kick-IndexOk pid target p p' r k e s x = elim (Option-cases (lookup target.user_id p.members)) [
    | inl n ↦ rw (n, kick) (put-IndexOk pid p' p r e (sym s) x)
    | inr (m, e') ↦
        let q = record p { members = delete target.user_id p.members } in
        let same_user =
          Every-lookup (λ u (y : PartyMember V). y.user_id ≡ u) target.user_id m p.members e'
            k.keyed in
        rw (e', kick)
          (ground (
            arith,
            put-IndexOk pid p' p r e (sym s) x,
            same_user,
            IsIndexed-exit pid target.user_id p' q r.parties r.by_user e
                (ap (delete target.user_id) (sym s)) (ground arith) x,
          ))
  ]

  -- `Remove` keeps the index exact.
  pub remove-IndexOk :
      (now : ℕ) (pid sess : String) (target : Presence) (r : Registry V)
      → IsRegistryOk r
      → IndexOk r
      → IndexOk (remove now pid sess target r).0
  unfolding remove touch
  remove-IndexOk now pid sess target r h x = elim (Result-cases (require_leader pid sess r)) [
    | inr (y, e) ↦ rw (e, remove) x
    | inl (p, e) ↦
        let p' = touch now p in
        let q = record p' { join_requests = delete target.user_id p'.join_requests } in
        let k = touch-IsPartyOk now pid p (require_leader-IsPartyOk pid sess p r h e) in
        let at = require_leader-lookup pid sess p r e in
        rw (e, remove)
          (ground (
            arith,
            put-IndexOk pid p p' r at refl x,
            put-IndexOk pid p q r at refl x,
            kick-IndexOk pid target p' p r k at refl x,
          ))
  ]

  unindex_all-lookup :
      (u : String) (l : Dict String (PartyMember V)) (r : Registry V)
      → Every (λ w m. m.user_id ≡ w) l
      → lookup u (unindex_all l r).by_user ≡ (if has u l then none else lookup u r.by_user)
  unfolding unindex_all unindex_member lookup
  unindex_all-lookup u [] r k = refl
  unindex_all-lookup u ((w, m) ∷ l) r k = ground (
    arith,
    unindex_all-lookup u l (unindex_member m.user_id m.session_id r) k.1,
    lookup-delete u m.user_id r.by_user,
  )

  unindex_all-parties :
      (l : Dict String (PartyMember V)) (r : Registry V) → (unindex_all l r).parties ≡ r.parties
  unfolding unindex_all unindex_member
  unindex_all-parties [] r = refl
  unindex_all-parties ((u, m) ∷ l) r =
      unindex_all-parties l (unindex_member m.user_id m.session_id r)

  -- `Close` keeps the index exact: it frees every member.
  pub close-IndexOk :
      (pid sess : String) (r : Registry V)
      → IsRegistryOk r
      → IndexOk r
      → IndexOk (close pid sess r).0
  unfolding close notify_membership_change dissolve holds
  close-IndexOk pid sess r h x = elim (Result-cases (require_leader pid sess r)) [
    | inr (y, e) ↦ rw (e, close) x
    | inl (p, e) ↦
        let k = require_leader-IsPartyOk pid sess p r h e in
        let at = require_leader-lookup pid sess p r e in
        rw (e, close)
          (record {
            listed = λ u q. ground (
              arith,
              at,
              x.listed u q,
              x.listed u pid,
              unindex_all-parties p.members r,
              unindex_all-lookup u p.members r k.keyed,
              lookup-delete q pid r.parties,
            );
          })
  ]

  new_party-IndexOk :
      (pid leader sess : String) (m : PartyMember V) (p : PartySession V) (r : Registry V)
      → lookup pid r.parties ≡ none
      → p.members ≡ insert leader m []
      → lookup leader r.by_user ≡ none
      → IndexOk r
      → IndexOk (index_member pid leader sess (put_party pid p r))
  unfolding index_member put_party holds lookup
  new_party-IndexOk pid leader sess m p r absent s free x = record {
    listed = λ u q. ground (
      arith,
      absent,
      s,
      free,
      x.listed u q,
      lookup-insert q pid p r.parties,
      lookup-insert u leader m [],
      lookup-insert u leader pid r.by_user,
    );
  }

  leave_before_create-none :
      (now : ℕ) (leader : String) (r : Registry V)
      → lookup leader r.by_user ≡ none
      → leave_before_create now leader r ≡ r
  unfolding leave_before_create
  leave_before_create-none now leader r e = ground arith

  leave_before_create-some :
      (now : ℕ) (leader prev : String) (r : Registry V)
      → r.cfg.single_party ≡ true
      → lookup leader r.by_user ≡ some prev
      → leave_before_create now leader r ≡ (leave now prev leader r).0
  unfolding leave_before_create
  leave_before_create-some now leader prev r single e = ground arith

  leave_before_create-free :
      (now : ℕ) (leader pid : String) (r : Registry V)
      → r.cfg.single_party ≡ true
      → IsRegistryOk r
      → IndexOk r
      → lookup pid r.parties ≡ none
      → let r' = leave_before_create now leader r in
        (lookup leader r'.by_user ≡ none)
        × (lookup pid r'.parties ≡ none)
        × (r'.cfg ≡ r.cfg)
        × IndexOk r'
  leave_before_create-free now leader pid r single h x absent =
      elim (Option-cases (lookup leader r.by_user)) [
        | inl e ↦ rw (leave_before_create-none now leader r e) (e, absent, refl, x)
        | inr (prev, e) ↦ rw (leave_before_create-some now leader prev r single e) (
          leave-frees now leader prev r h x e,
          lookup-leave_absent now prev leader pid r absent,
          leave-cfg now prev leader r,
          leave-IndexOk now prev leader r x,
        )
      ]

  create_valid-IndexOk :
      (now : ℕ) (fresh leader name sess : String) (is_open hidden : Bool) (max_size : ℤ)
      (label : String) (r : Registry V)
      → r.cfg.single_party ≡ true
      → IsRegistryOk r
      → IndexOk r
      → lookup (concat (concat fresh ".") r.cfg.node) r.parties ≡ none
      → IndexOk (create_valid now fresh leader name sess is_open hidden max_size label r).0
  unfolding create_valid new_party
  create_valid-IndexOk now fresh leader name sess is_open hidden max_size label r single h x
        absent =
      let r' = leave_before_create now leader r in
      let (free, none_yet, cfg, x') =
        leave_before_create-free now leader (concat (concat fresh ".") r.cfg.node) r single h x
          absent in
      new_party-IndexOk (concat (concat fresh ".") r'.cfg.node) leader sess
        (new_member now leader name sess) _ r'
        (ap (λ c. lookup (concat (concat fresh ".") c.node) r'.parties) cfg ∙ none_yet) refl free x'

  -- `Create` keeps the index exact if the new id is in use nowhere.
  pub create-IndexOk :
      (unmarshal : String → Option ℕ) (now : ℕ) (fresh leader name sess : String)
      (is_open hidden : Bool) (asked : ℤ) (label : String) (r : Registry V)
      → r.cfg.single_party ≡ true
      → IsRegistryOk r
      → IndexOk r
      → lookup (concat (concat fresh ".") r.cfg.node) r.parties ≡ none
      → IndexOk (create unmarshal now fresh leader name sess is_open hidden asked label r).0
  unfolding create
  create-IndexOk unmarshal now fresh leader name sess is_open hidden asked label r single h x
        absent =
      let max_size = if is_zero_ℤ asked then r.cfg.default_max_size else asked in
      let label' = normalize_label label in
      elim (Option-cases (validate_label unmarshal label' hidden)) [
        | inl e ↦ ground (
          arith,
          e,
          x,
          create_valid-IndexOk now fresh leader name sess is_open hidden max_size label' r single h
              x absent,
        )
        | inr (y, e) ↦ ground (arith, e, x)
      ]
