-- ===== src/Relay/Client/Registry.antt =====
-- The registry of calls: what holds of it, and how a change of one call keeps it.
use signalwire_agents_cpp.Prelude.{
  ℕ, ◌<◌, some, ◌≡◌, ◌≢◌, sym, ap, ◌∙◌, Bytes, codes, str_eq_iff, arith,
}
use signalwire_agents_cpp.Prelude.Map.{erase_inv, erase, lookup, lookup-assign, lookup-erase}
use signalwire_agents_cpp.Relay.Call.{Call, Store}
use signalwire_agents_cpp.Relay.Client.{Client, at_handle, register_call, unregister_call, add_call}

-- Every registered call has the id that it is registered under, and has not ended.
pub record IsRegistry {J : Type 0} (c : Client J) : Type 0 where
  pub owned : (i : Bytes) (h : ℕ) → lookup i c.calls ≡ some h → h < c.call_count
  pub named : (i : Bytes) (h : ℕ) → lookup i c.calls ≡ some h → (c.call_objects h).call_id ≡ i
  pub running :
      (i : Bytes) (h : ℕ) → lookup i c.calls ≡ some h → (c.call_objects h).state ≢ codes "ended"

module _ {J : Type 0} where
  -- A new call takes the place of the one with its id, if there is one.
  pub add_call-IsRegistry :
      (c : Client J) (i : Bytes) (call : Call)
      → call.call_id ≡ i
      → call.state ≢ codes "ended"
      → IsRegistry c
      → IsRegistry (add_call c i call)
  unfolding add_call register_call at_handle
  add_call-IsRegistry c i call name run v = record {
    owned =
        λ j h l. let e = lookup-assign i j c.call_count c.calls in ground (arith, e, v.owned j h);
    named = λ j h l.
        let e = lookup-assign i j c.call_count c.calls in
        ground (arith, e, v.owned j h, v.named j h, str_eq_iff i j);
    running = λ j h l.
        let e = lookup-assign i j c.call_count c.calls in
        ground (arith, e, v.owned j h, v.running j h);
  }

  -- A registered call is replaced by one of the same id.
  pub replace-IsRegistry :
      (c : Client J) (i : Bytes) (h : ℕ) (call : Call) (actions : Store J)
      → lookup i c.calls ≡ some h
      → call.call_id ≡ (c.call_objects h).call_id
      → call.state ≢ codes "ended"
      → IsRegistry c
      → IsRegistry (record c { call_objects = at_handle c.call_objects h call; actions = actions })
  unfolding at_handle
  replace-IsRegistry c i h call actions found name run v = record {
    owned = v.owned;
    named = λ j k l. ground (arith, v.named j k l, v.named i h found);
    running = λ j k l. ground (arith, v.running j k l);
  }

  pub unregister-IsRegistry :
      (c : Client J) (i : Bytes) → IsRegistry c → IsRegistry (unregister_call c i)
  unfolding unregister_call
  unregister-IsRegistry c i v = record {
    owned = λ j h l. let e = lookup-erase i j c.calls in ground (arith, e, v.owned j h);
    named = λ j h l. let e = lookup-erase i j c.calls in ground (arith, e, v.named j h);
    running = λ j h l. let e = lookup-erase i j c.calls in ground (arith, e, v.running j h);
  }

  -- A registered call may end when its id leaves the registry: no other id leads to it.
  pub retire-IsRegistry :
      (c : Client J) (i : Bytes) (h : ℕ) (call : Call) (actions : Store J)
      → lookup i c.calls ≡ some h
      → IsRegistry c
      → IsRegistry (
          unregister_call
            (record c { call_objects = at_handle c.call_objects h call; actions = actions })
            i)
  unfolding at_handle unregister_call
  retire-IsRegistry c i h call actions found v =
      let back = λ (j : Bytes) (k : ℕ) (l : lookup j (erase i c.calls) ≡ some k).
        (erase_inv i j k c.calls l).1 in
      let apart = λ (j : Bytes) (k : ℕ) (l : lookup j (erase i c.calls) ≡ some k) (t : k ≡ h).
        (erase_inv i j k c.calls l).0 (
          sym (v.named j k (back j k l))
          ∙ ap (λ x. (c.call_objects x).call_id) t
          ∙ v.named i h found) in
      record {
        owned = λ j k l. v.owned j k (back j k l);
        named = λ j k l. ground (arith, back j k l, apart j k l, v.named j k);
        running = λ j k l. ground (arith, back j k l, apart j k l, v.running j k);
      }

  -- The other fields play no part.
  pub same-IsRegistry :
      (c d : Client J)
      → d.calls ≡ c.calls
      → d.call_objects ≡ c.call_objects
      → d.call_count ≡ c.call_count
      → IsRegistry c
      → IsRegistry d
  same-IsRegistry c d e f g v = record {
    owned = λ i h l. rw g (v.owned i h (rw (← e) l));
    named = λ i h l. rw f (v.named i h (rw (← e) l));
    running = λ i h l. rw f (v.running i h (rw (← e) l));
  }
