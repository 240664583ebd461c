-- ===== src/Model/Ids.antt =====
-- run.go: the call ID that decideCallID gives a call.
use agentturn.Base.{
  ℕ, true, false, List, some, String, ◌==◌, String-Comparable, Nat-Comparable, lookup, insert, ◌≡◌,
  refl, arith, Bool-cases, inl, inr, contains-add_key, by_if, nat_eq_iff,
}
use agentturn.Items.{Item}
use agentturn.Loop.Pending.{id_of}
use agentturn.Model.Prefix.{call_id_prefix}
use agentturn.Model.Attempt.{
  Attempt, StreamEnv, call_id_taken, decide_call_id, decided_call_id, decided_with,
}

module _ {W Err Response Raw Acc : Type 0} (env : StreamEnv W Err Response Raw Acc) (call : Item)
    (index : ℕ) (a : Attempt) (id : String) where
  decided_with-known : decided_call_id env call index (decided_with env call index id a) ≡ some id
  unfolding decided_call_id lookup insert
  decided_with-known = elim (Bool-cases (env.item_id call == "")) [
    | inl e ↦ ground (arith, e, (nat_eq_iff index index).1 refl)
    | inr e ↦
        ground
          (arith, e, (String-Comparable.tells_apart (env.item_id call) (env.item_id call)).1 refl)
  ]

  decided_with-taken :
      (transcript : List Item)
      → call_id_taken env id (decided_with env call index id a) transcript ≡ true
  unfolding call_id_taken
  decided_with-taken transcript =
      ground (arith, contains-add_key id id a.decided, (String-Comparable.tells_apart id id).1 refl)

-- The ID that a call made by the model gets, once it is decided at its output index: what the attempt
-- knows the call by from then on. The made ID is one that is not taken, as its random suffix is to see
-- to. Then the ID is not taken either: it is not empty, nobody reserved it, and no call of the
-- transcript and no call decided before has it. It is the model's own wherever that was free. And it
-- is taken from then on, so no later call of the attempt is given it.
pub decide_call_id-taken :
    {W Err Response Raw Acc : Type 0} (env : StreamEnv W Err Response Raw Acc) (call : Item)
    (index : ℕ) (a : Attempt) (transcript : List Item) (w : W)
    → call_id_taken env (env.new_id (call_id_prefix (id_of call)) w).0 a transcript ≡ false
    → let a' = (decide_call_id env call index a transcript w).0 in
      (id : String) × (decided_call_id env call index a' ≡ some id)
      × (call_id_taken env id a transcript ≡ false)
      × (call_id_taken env id a' transcript ≡ true)
      × (call_id_taken env (id_of call) a transcript ≡ false → id ≡ id_of call)
unfolding decide_call_id
decide_call_id-taken {W = W} env call index a transcript w fresh =
    let made = (env.new_id (call_id_prefix (id_of call)) w).0 in
    by_if
      (λ (out : Attempt × W).
        (id : String) × (decided_call_id env call index out.0 ≡ some id)
        × (call_id_taken env id a transcript ≡ false)
        × (call_id_taken env id out.0 transcript ≡ true)
        × (call_id_taken env (id_of call) a transcript ≡ false → id ≡ id_of call))
      (call_id_taken env (id_of call) a transcript)
      (λ e. (
        made,
        decided_with-known env call index a made,
        fresh,
        decided_with-taken env call index a made transcript,
        λ f. absurd (cc),
      ))
      (λ e. (
        id_of call,
        decided_with-known env call index a (id_of call),
        e,
        decided_with-taken env call index a (id_of call) transcript,
        λ f. refl,
      ))
