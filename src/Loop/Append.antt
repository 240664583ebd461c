-- ===== src/Loop/Append.antt =====
-- run.go: emit, appendOne and the appends over it, hold, notesHeld and flushNotes.
pub mod Grown
pub mod Ledger
use agentturn.Base.{
  Bool, true, false, ◌&&◌, List, [], ◌∷◌, ◌++◌, Option, none, some, String, ok, err, ◌==◌,
  String-Comparable, Nat-Comparable, if◌then◌else◌, ◌≡◌, refl,
}
use agentturn.Items.{
  Item, at, message, Role, user, assistant, developer, system, Input, plain, Trigger, zero_trigger,
  is_zero, Provenance, marks, provenance, is_nil_input,
}
use agentturn.Persons.{add}
use agentturn.Loop.{
  InputMode, TurnInput, Event, item_start, item_end, Halt, fault, Runner, State, Act,
}

module _ {W Err : Type 0} where
  infixl 5 ◌>>=◌ ◌>>◌
  abbrev pub ◌>>=◌ : {A B : Type 0} → Act W Err A → (A → Act W Err B) → Act W Err B
  ◌>>=◌ m f s = let (r, s') = m s in elim r [ ok a ↦ f a s' | err e ↦ (err e, s') ]

  abbrev pub ◌>>◌ : {B : Type 0} → Act W Err (Unit {0}) → Act W Err B → Act W Err B
  m >> k = m >>= λ _. k

  abbrev pub pure : {A : Type 0} → A → Act W Err A
  pure a s = (ok a, s)

  abbrev pub halt : {A : Type 0} → Halt Err → Act W Err A
  halt e s = (err e, s)

  abbrev pub get : Act W Err Runner
  get s = (ok s.run, s)

  abbrev pub put : Runner → Act W Err (Unit {0})
  put r s = (ok tt, record s { run = r })

module _ {W Err A B : Type 0} (m : Act W Err A) (f : A → Act W Err B) (s : State W) where
  pub bind_ok : {a : A} → (m s).0 ≡ ok a → (m >>= f) s ≡ f a (m s).1
  bind_ok e = rw (e, ◌>>=◌) refl

  pub bind_err : {x : Halt Err} → (m s).0 ≡ err x → (m >>= f) s ≡ (err x, (m s).1)
  bind_err e = rw (e, ◌>>=◌) refl

-- The source that the item's provenance names stands over the trigger it is handed in under.
abbrev pub own_trigger : Option Provenance → Trigger → Trigger
own_trigger none t = t
own_trigger (some p) t = if is_zero p.source then t else p.source

-- What the append itself does to the runner.
unfoldable pub appended : Input → InputMode → Trigger → Trigger → Runner → Runner
unfolding is_zero marks provenance
appended i mode trigger end_trigger r =
    let prov = provenance i in
    let t = own_trigger prov trigger in
    let (item, hidden, copied) = marks i in
    record r {
      transcript = r.transcript ++ item ∷ [];
      added = r.added ++ item ∷ [];
      arrived = r.arrived ++ (record { item = plain item; mode = mode; trigger = t }) ∷ [];
      persons = add r.persons item (if is_zero t then end_trigger else t) prov hidden copied;
    }

-- Two notes said on the call: by role and text for messages, else by their JSON.
module _ (json : Item → Option String) where
  abbrev same_role : Role → Role → Bool
  same_role user user = true
  same_role assistant assistant = true
  same_role developer developer = true
  same_role system system = true
  same_role _ _ = false

  abbrev same_json : Option String → Option String → Bool
  same_json (some a) (some b) = a == b
  same_json _ _ = false

  pub same_note_item : Item → Item → Bool
  same_note_item (at r (message role text)) (at s (message role' text')) =
      same_role role role' && text == text'
  same_note_item a b = same_json (json a) (json b)

module _ {W Err : Type 0} (send : Event Err → W → Option Err × W) where
  unfoldable pub emit : Event Err → Act W Err (Unit {0})
  emit ev s =
      let (e, w) = send ev s.world in
      elim e [
        | none ↦ (ok tt, record s { world = w })
        | some x ↦ (err (fault x), record s { world = w })
      ]

  unfoldable pub append_one : Input → InputMode → Trigger → Trigger → Act W Err (Unit {0})
  unfolding emit
  append_one i mode trigger end_trigger =
      let (item, hidden, copied) = marks i in
      let prov = provenance i in
      let steps : Act W Err (Unit {0}) = do
        emit (item_start item hidden copied prov)
        r ← get
        put (appended i mode trigger end_trigger r)
        emit (item_end item hidden copied end_trigger prov)
      in if is_nil_input i then pure tt else steps

  unfoldable pub append_with : List Input → InputMode → Trigger → Trigger → Act W Err (Unit {0})
  append_with [] mode trigger end_trigger = pure tt
  append_with (i ∷ items) mode trigger end_trigger = do
    append_one i mode trigger end_trigger
    append_with items mode trigger end_trigger

  unfoldable pub append_items : List Input → InputMode → Act W Err (Unit {0})
  unfolding append_with
  append_items items mode = append_with items mode zero_trigger zero_trigger

  unfoldable pub append_arrived : List TurnInput → Act W Err (Unit {0})
  append_arrived [] = pure tt
  append_arrived (i ∷ inputs) = do
    append_one i.item i.mode i.trigger zero_trigger
    append_arrived inputs
