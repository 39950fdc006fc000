-- ===== src/PolicyDelta/Verify.antt =====
-- check-unifi-delta.py: `prepare` and `verify`.
use home_lab.Prelude.{String, Bool, true, false, ◌&&◌, ◌||◌, List, [], ◌∷◌, ◌++◌, if◌then◌else◌}
use home_lab.Program.{pure, raise, ◌>>=◌, ◌>>◌}
use home_lab.Json.{Json, str, arr, obj, nil, cons, Fields, get}
use home_lab.PolicyDelta.{
  Reason, rejected, not_one_return, other_policies, duplicate_return, forward_changed,
  return_changed, unrelated_changed, bad_value, Check, require, Equality, Policies, policy, has_id,
  objects, semantic, put, at, fields_of,
}
use home_lab.PolicyDelta.Pair.{validate_pair}

-- FORWARDS
abbrev pub forwards : List (String × String)
forwards =
    ("6ab93666519d986cdf987240", "10.32.140.1") ∷ ("6ad6c08f519d986cdf2ee284", "10.32.130.1") ∷ []

-- OLD, NEW
abbrev pub old_sources : Json
old_sources = arr (cons (str "10.32.19.103") nil)

abbrev pub new_sources : Json
new_sources = arr (cons (str "10.32.19.103") (cons (str "10.32.19.104") nil))

-- `proposed[side]["ips"] = NEW[:]` on a copy
unfoldable pub with_new_ips : String → Fields → Check Fields
with_new_ips side p = do
  v ← at p side
  endpoint ← fields_of v
  pure (put p side (obj (put endpoint "ips" new_sources)))

-- `require(len(replies) == 1, ...)` and the reply
abbrev pub only_reply : Reason → List Fields → Check Fields
only_reply reason (reply ∷ []) = pure reply
only_reply reason _ = raise (rejected reason)

-- `next(p for p in ...)`
abbrev pub first_reply : List Fields → Check Fields
first_reply [] = raise bad_value
first_reply (reply ∷ _) = pure reply

-- `{p["_id"]: p for p in changes}`
unfoldable pub by_id : List Fields → Check Policies
by_id [] = pure []
by_id (p ∷ ps) = do ident ← at p "_id"; rest ← by_id ps; pure ((ident, p) ∷ rest)

abbrev pub ids_of : Policies → List Json
ids_of [] = []
ids_of ((k, p) ∷ ps) = k ∷ ids_of ps

module _ (equal : Equality) where
  -- `[p for p in before.values() if p.get("origin_id") == ident]`
  abbrev pub replies_to : Json → Policies → List Fields
  replies_to ident [] = []
  replies_to ident ((k, p) ∷ ps) =
      let rest = replies_to ident ps in if equal (get p "origin_id") ident then p ∷ rest else rest

  -- The body of the loop of `prepare`
  unfoldable pub propose : Policies → String → String → Check Fields
  propose before ident vip = do
    forward ← policy equal (str ident) before
    reply ← only_reply not_one_return (replies_to (str ident) before)
    validate_pair equal forward reply vip old_sources
    with_new_ips "source" forward

  unfoldable pub propose_all : Policies → List (String × String) → Check (List Fields)
  propose_all before [] = pure []
  propose_all before ((ident, vip) ∷ rest) = do
    change ← propose before ident vip
    changes ← propose_all before rest
    pure (change ∷ changes)

  -- `prepare`
  unfoldable pub prepare : Json → Check (List Fields)
  prepare snapshot = objects equal snapshot >>= λ before. propose_all before forwards

  -- Equality of two policies, without the counters
  abbrev pub same_policy : Fields → Fields → Bool
  same_policy p q = equal (obj (semantic p)) (obj (semantic q))

  abbrev pub compare_both : Fields → Fields → Fields → Fields → Check (Unit {0})
  compare_both forward expected reply expected_return = do
    require (same_policy forward expected) forward_changed
    require (same_policy reply expected_return) return_changed

  abbrev pub verify_both : Policies → String → String → Fields → Fields → Fields → Check (Unit {0})
  verify_both proposed ident vip old_return reply forward = do
    validate_pair equal forward reply vip new_sources
    expected_return ← with_new_ips "destination" old_return
    expected ← policy equal (str ident) proposed
    compare_both forward expected reply expected_return

  abbrev pub verify_reply :
      Policies → Policies → String → String → Fields → Fields → Check (Unit {0})
  verify_reply after proposed ident vip old_return reply = do
    only_reply duplicate_return (replies_to (str ident) after)
    forward ← policy equal (str ident) after
    verify_both proposed ident vip old_return reply forward

  abbrev pub verify_return : Policies → Policies → String → String → Fields → Json → Check Json
  verify_return after proposed ident vip old_return id = do
    reply ← policy equal id after
    verify_reply after proposed ident vip old_return reply
    pure id

  -- The body of the first loop of `verify`: the ID of the reply, which joins `changed`
  unfoldable pub verify_pair : Policies → Policies → Policies → String → String → Check Json
  verify_pair before after proposed ident vip = do
    old_return ← first_reply (replies_to (str ident) before)
    id ← at old_return "_id"
    verify_return after proposed ident vip old_return id

  unfoldable pub verify_pairs :
      Policies → Policies → Policies → List (String × String) → Check (List Json)
  verify_pairs before after proposed [] = pure []
  verify_pairs before after proposed ((ident, vip) ∷ rest) = do
    id ← verify_pair before after proposed ident vip
    ids ← verify_pairs before after proposed rest
    pure (id ∷ ids)

  -- `before.keys() == after.keys()`
  abbrev pub keys_within : Policies → Policies → Bool
  keys_within [] ps = true
  keys_within ((k, p) ∷ rest) ps = has_id equal k ps && keys_within rest ps

  abbrev pub is_changed : List Json → Json → Bool
  is_changed [] k = false
  is_changed (id ∷ ids) k = equal id k || is_changed ids k

  abbrev pub compare : Policies → Json → Fields → Check (Unit {0})
  compare after k p = policy equal k after >>= λ q. require (same_policy p q) unrelated_changed

  unfoldable pub verify_other : Policies → List Json → Json → Fields → Check (Unit {0})
  verify_other after changed k p = if is_changed changed k then pure tt else compare after k p

  -- The last loop, in the order of the snapshot
  unfoldable pub verify_others : Policies → List Json → Policies → Check (Unit {0})
  verify_others after changed [] = pure tt
  verify_others after changed ((k, p) ∷ rest) = do
    verify_other after changed k p
    verify_others after changed rest

  -- `verify`, on the two tables, with what `prepare` proposes
  abbrev pub verify_proposed : Policies → Policies → Policies → Check (Unit {0})
  verify_proposed before after proposed = do
    returns ← verify_pairs before after proposed forwards
    verify_others after (ids_of proposed ++ returns) before

  abbrev pub verify_tables : Json → Policies → Policies → Check (Unit {0})
  verify_tables before_snapshot before after = do
    require (keys_within before after && keys_within after before) other_policies
    changes ← prepare before_snapshot
    proposed ← by_id changes
    verify_proposed before after proposed

  -- `verify`
  unfoldable pub verify : Json → Json → Check (Unit {0})
  verify before_snapshot after_snapshot = do
    before ← objects equal before_snapshot
    after ← objects equal after_snapshot
    verify_tables before_snapshot before after
