-- ===== src/Party/Index.antt =====
-- internal/party/party.go: the index `byUser` under the single-party rule. It lists exactly the
-- memberships, so a user is in one party at most.
use ultimate_game_server.Prelude.{
  String, ◌≡◌, refl, Bool, true, false, none, some, [], ◌∷◌, arith, ◌==◌, string_key,
}
use ultimate_game_server.Dict.{
  Dict, lookup, has, insert, delete, size, lookup-insert, lookup-delete,
}
use ultimate_game_server.Party.Types.{PartyMember, PartySession}

module _ {V : Type 0} where
  unfoldable pub holds : String → String → Dict String (PartySession V) → Bool
  holds pid user parties = elim (lookup pid parties) [ none ↦ false | some p ↦ has user p.members ]

  pub record IsIndexed (parties : Dict String (PartySession V)) (by : Dict String String)
      : Type 0 where
    pub listed :
        (user pid : String)
        → (holds pid user parties ≡ true → lookup user by ≡ some pid)
          × (lookup user by ≡ some pid → holds pid user parties ≡ true)

  pub IsIndexed-put :
      (pid : String) (p q : PartySession V) (parties : Dict String (PartySession V))
      (by : Dict String String)
      → lookup pid parties ≡ some p
      → ((u : String) → has u q.members ≡ has u p.members)
      → IsIndexed parties by
      → IsIndexed (insert pid q parties) by
  unfolding holds
  IsIndexed-put pid p q parties by e s h = record {
    listed = λ u x. ground (arith, e, s u, h.listed u x, lookup-insert x pid q parties);
  }

  -- A user that no party holds enters one.
  pub IsIndexed-enter :
      (pid user : String) (m : PartyMember V) (p q : PartySession V)
      (parties : Dict String (PartySession V)) (by : Dict String String)
      → lookup pid parties ≡ some p
      → q.members ≡ insert user m p.members
      → lookup user by ≡ none
      → IsIndexed parties by
      → IsIndexed (insert pid q parties) (insert user pid by)
  unfolding holds
  IsIndexed-enter pid user m p q parties by e s free h = record {
    listed = λ u x. ground (
      arith,
      e,
      s,
      free,
      h.listed u x,
      lookup-insert x pid q parties,
      lookup-insert u user m p.members,
      lookup-insert u user pid by,
    );
  }

  -- A member leaves the party that holds it.
  pub IsIndexed-exit :
      (pid user : String) (p q : PartySession V) (parties : Dict String (PartySession V))
      (by : Dict String String)
      → lookup pid parties ≡ some p
      → q.members ≡ delete user p.members
      → has user p.members ≡ true
      → IsIndexed parties by
      → IsIndexed (insert pid q parties) (delete user by)
  unfolding holds
  IsIndexed-exit pid user p q parties by e s held h = record {
    listed = λ u x. ground (
      arith,
      e,
      s,
      held,
      h.listed u x,
      h.listed u pid,
      lookup-insert x pid q parties,
      lookup-delete u user p.members,
      lookup-delete u user by,
    );
  }

  has_of_empty :
      (u : String) (l : Dict String (PartyMember V)) → (size l == 0) ≡ true → has u l ≡ false
  unfolding lookup
  has_of_empty u [] h = refl
  has_of_empty u (x ∷ l) h = ground arith

  -- The last member leaves and the party goes.
  pub IsIndexed-dissolve :
      (pid user : String) (p : PartySession V) (parties : Dict String (PartySession V))
      (by : Dict String String)
      → lookup pid parties ≡ some p
      → has user p.members ≡ true
      → (size (delete user p.members) == 0) ≡ true
      → IsIndexed parties by
      → IsIndexed (delete pid parties) (delete user by)
  unfolding holds
  IsIndexed-dissolve pid user p parties by e held last h = record {
    listed = λ u x. ground (
      arith,
      e,
      held,
      h.listed u x,
      h.listed u pid,
      lookup-delete x pid parties,
      lookup-delete u user p.members,
      has_of_empty u (delete user p.members) last,
      lookup-delete u user by,
    );
  }
