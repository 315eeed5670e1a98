-- ===== src/Raft/Ballot.antt =====
-- The term and the vote of a peer, and how they may move.
use sjytker_my_mit.Base.{ℕ, ◌<◌, ◌≡◌, sym, subst, ◌⊎◌, arith, ℤ, minus_one}
use sjytker_my_mit.Raft.State.{Raft}

pub record Ballot : Type 0 where
  pub term : ℕ
  pub vote : ℤ

-- A later term, or the same term with a vote that is kept once it is cast.
abbrev pub Follows : Ballot → Ballot → Type 0
Follows a b = (a.term < b.term) ⊎ ((a.term ≡ b.term) × ((a.vote ≡ minus_one) ⊎ (a.vote ≡ b.vote)))

pub Follows-refl : (a : Ballot) → Follows a a
Follows-refl a = ground arith

pub Follows-trans : (a b c : Ballot) → Follows a b → Follows b c → Follows a c
Follows-trans a b c p q = ground arith

pub Follows-eq : (a b c : Ballot) → c ≡ b → Follows a b → Follows a c
Follows-eq a b c e h = subst (Follows a) (sym e) h

module _ {C B : Type 0} where
  abbrev pub ballot : Raft C B → Ballot
  ballot rf = record { term = rf.current_term; vote = rf.vote_for }
