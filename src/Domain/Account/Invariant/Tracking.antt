-- ===== src/Domain/Account/Invariant/Tracking.antt =====
-- A state's set and the transactions map agree, and keep agreeing when a transaction is recorded or
-- moves to another state.
use nda_takehome.Base.{ℕ, Bool, true, false, Option, none, some, ◌≡◌, arith}
use nda_takehome.Collections.{HashMap, HashSet, get, insert, modify_at, contains, add, remove}
use nda_takehome.Collections.Laws.{get-insert, get-modify_at, contains-add, contains-remove}
use nda_takehome.Message.{InputMessage}
use nda_takehome.Domain.Account.State.{
  TransactionState, normal, disputed, resolved, chargeback, set_state,
}

abbrev pub Transactions : Type 0
Transactions = HashMap (TransactionState × InputMessage)

abbrev pub same_state : TransactionState → TransactionState → Bool
same_state normal normal = true
same_state disputed disputed = true
same_state resolved resolved = true
same_state chargeback chargeback = true
same_state _ _ = false

-- Whether an entry of the map is there and in the state.
abbrev pub is_in : TransactionState → Option (TransactionState × InputMessage) → Bool
is_in s none = false
is_in s (some (t, _)) = same_state s t

abbrev pub Tracks : TransactionState → HashSet → Transactions → Type 0
Tracks s set m = (k : ℕ) → contains k set ≡ is_in s (get k m)

module _ (s : TransactionState) (set : HashSet) (m : Transactions) (k : ℕ) where
  pub Tracks-record_same :
      (msg : InputMessage) → Tracks s set m → Tracks s (add k set) (insert k (s, msg) m)
  Tracks-record_same msg h j = ground (arith, h j, contains-add k j set, get-insert k j (s, msg) m)

  pub Tracks-record_other :
      (t : TransactionState) (msg : InputMessage)
      → same_state s t ≡ false
      → get k m ≡ none
      → Tracks s set m
      → Tracks s set (insert k (t, msg) m)
  Tracks-record_other t msg ne new h j = ground (arith, h j, get-insert k j (t, msg) m)

  pub Tracks-leave :
      (t : TransactionState)
      → same_state s t ≡ false
      → Tracks s set m
      → Tracks s (remove k set) (modify_at k (set_state t) m)
  Tracks-leave t ne h j =
      ground (arith, h j, contains-remove k j set, get-modify_at k j (set_state t) m)

  pub Tracks-enter :
      {entry : TransactionState × InputMessage}
      → get k m ≡ some entry
      → Tracks s set m
      → Tracks s (add k set) (modify_at k (set_state s) m)
  Tracks-enter e h j = ground (arith, h j, contains-add k j set, get-modify_at k j (set_state s) m)

  pub Tracks-stay :
      (t u : TransactionState) {msg : InputMessage}
      → get k m ≡ some (u, msg)
      → same_state s u ≡ false
      → same_state s t ≡ false
      → Tracks s set m
      → Tracks s set (modify_at k (set_state t) m)
  Tracks-stay t u e ne_u ne_t h j = ground (arith, h j, get-modify_at k j (set_state t) m)
