-- ===== src/Samples/Parity.antt =====
-- The asynchronous client beside the synchronous one, and streams of maps.
use hurricache_python_client.Base.{true, some, ℕ, ◌≡◌, refl, false, none, [], ◌∷◌, arith, flatten}
use hurricache_python_client.Base.Int.{pos}
use hurricache_python_client.Models.{Bytes, Payload, plain, no_lock, vector}
use hurricache_python_client.Errors.{pairs, ok}
use hurricache_python_client.Messages.{Elements, no_elements, CreateContainerRequest}
use hurricache_python_client.Rpc.{add_element}
use hurricache_python_client.Effects.{start, finite}
use hurricache_python_client.Wire.{bytes_like, text, raw, decode_key, decode_value, decode}
use hurricache_python_client.Wire.Gzip.{GzipLaws}
use hurricache_python_client.Batching.Shapes.{addition}
use hurricache_python_client.Client.{call_add_chunked}
use hurricache_python_client.Client as Sync
use hurricache_python_client.Client.Requests.{Target, resolve_client_id}
use hurricache_python_client.Client.Reads as Reads
use hurricache_python_client.Client.Values as Values
use hurricache_python_client.Client.Atomics as Atomics
use hurricache_python_client.Streams.{Pairs, collect_stream, decode_batch, decode_pairs, dict_set}
use hurricache_python_client.Streams.Maps.{get, last_of, collect_stream-maps}
use hurricache_python_client.Async.{send_add_chunks, create_container_chunked}
use hurricache_python_client.Async.Agree.{send_add_chunks-call_add_chunked}
use hurricache_python_client.Async.Creating.{create_container_chunked_agree}
use hurricache_python_client.Async.Whole.Collections.{CollectionsAgree, collections_agree}
use hurricache_python_client.Async.Reads.{get_container}
use hurricache_python_client.Async.Parity.{values_agree}
use hurricache_python_client.Async.Parity.Elements.{elements_agree}
use hurricache_python_client.Async.Reads as Whole
use hurricache_python_client.Async.Parity.Numbers.{atomics_agree}
use hurricache_python_client.Async.Parity.Insertions.{InsertionsAgree, insertions_agree}
use hurricache_python_client.Async.Values as Async
use hurricache_python_client.Async.Atomics as Numbers
use hurricache_python_client.Samples.{env, host, a_key, value_of_byte, three_values}

abbrev content : Bytes
content = 1 ∷ 2 ∷ []

abbrev target : Target
target = record { key = bytes_like content; hint = none; client_id = none; timeout = none }

send_add_chunks-call_add_chunked_example :
    send_add_chunks addition host "add_element" add_element none false three_values
    ≡ call_add_chunked addition host "add_element" add_element none false three_values
send_add_chunks-call_add_chunked_example =
    send_add_chunks-call_add_chunked addition host "add_element" add_element none false three_values

abbrev creating : CreateContainerRequest
creating = record {
  key = a_key;
  container_type = vector;
  ttl = none;
  elements = three_values.elements;
}

create_container_chunked_agree_example :
    create_container_chunked host none creating ≡ Sync.create_container_chunked host none creating
create_container_chunked_agree_example = create_container_chunked_agree host none creating

gzip_laws : GzipLaws env
gzip_laws = record { read-compress = λ xs n. refl }

collections_agree_example : CollectionsAgree env host target start
collections_agree_example =
    collections_agree env host target content refl gzip_laws (omega arith) start

values_agree_example :
    (Async.create_key_value host target (raw (bytes_like content)) none
      ≡ Values.create_key_value host target (raw (bytes_like content)) none)
    × (Async.update_value host target (raw (bytes_like content)) none
        ≡ Values.update_value host target (raw (bytes_like content)) none)
    × (Async.set_ttl host target none ≡ Values.set_ttl host target none)
    × (Async.get_ttl host target ≡ Values.get_ttl host target)
    × (Async.lock_object host target no_lock (finite (pos 5))
        ≡ Values.lock_object host target no_lock (finite (pos 5)))
    × (Async.unlock_object host target ≡ Values.unlock_object host target)
    × (Async.exist_key host target ≡ Values.exist_key host target)
    × (Async.get_value host target ≡ Values.get_value host target)
    × (Async.get_and_delete_value host target ≡ Values.get_and_delete_value host target)
    × (Async.remove host target ≡ Values.remove host target)
values_agree_example =
    values_agree host target (raw (bytes_like content)) none no_lock (finite (pos 5))

elements_agree_example :
    (Whole.get_size host target ≡ Reads.get_size host target)
    × ((Whole.get_tail host target ≡ Reads.get_tail host target)
        × (Whole.get_head host target ≡ Reads.get_head host target)
        × (Whole.get_and_remove_front host target ≡ Reads.get_and_remove_front host target)
        × (Whole.get_and_remove_tail host target ≡ Reads.get_and_remove_tail host target)
        × (Whole.remove_head host target ≡ Reads.remove_head host target)
        × (Whole.remove_tail host target ≡ Reads.remove_tail host target))
    × (Whole.get_value_in_container host target (text "a") none
        ≡ Reads.get_value_in_container host target (text "a") none)
    × (Whole.get_and_delete_value_in_container host target (text "a") none
        ≡ Reads.get_and_delete_value_in_container host target (text "a") none)
    × (Whole.exist_key_in_container host target (text "a") none
        ≡ Reads.exist_key_in_container host target (text "a") none)
    × (Whole.remove_in_container host target (text "a") none
        ≡ Reads.remove_in_container host target (text "a") none)
    × (Whole.get_element_at_position host target 2 vector
        ≡ Reads.get_element_at_position host target 2 vector)
    × (Whole.get_and_remove_element_at_position host target 2 vector
        ≡ Reads.get_and_remove_element_at_position host target 2 vector)
    × (Whole.remove_element_at_position host target 2 vector
        ≡ Reads.remove_element_at_position host target 2 vector)
elements_agree_example = elements_agree host target (text "a") none 2 vector

atomics_agree_example :
    (Numbers.atomic_create host target (pos 4) none
      ≡ Atomics.atomic_create host target (pos 4) none)
    × (Numbers.atomic_store host target (pos 4) none
        ≡ Atomics.atomic_store host target (pos 4) none)
    × (Numbers.atomic_exchange host target (pos 4) none
        ≡ Atomics.atomic_exchange host target (pos 4) none)
    × (Numbers.atomic_add host target (pos 4) none ≡ Atomics.atomic_add host target (pos 4) none)
    × (Numbers.atomic_sub host target (pos 4) none ≡ Atomics.atomic_sub host target (pos 4) none)
    × (Numbers.atomic_or host target (pos 4) none ≡ Atomics.atomic_or host target (pos 4) none)
    × (Numbers.atomic_and host target (pos 4) none ≡ Atomics.atomic_and host target (pos 4) none)
    × (Numbers.atomic_xor host target (pos 4) none ≡ Atomics.atomic_xor host target (pos 4) none)
unfolding resolve_client_id
atomics_agree_example = atomics_agree host target refl (pos 4) none

insertions_agree_example :
    InsertionsAgree host target
      (raw (text "p"))
      true
      (some (raw (text "v") ∷ []))
      none
      3
      (some (pos 9))
      false
insertions_agree_example =
    insertions_agree host target (raw (text "p")) (some (raw (text "v") ∷ [])) true none 3
      (some (pos 9)) false

-- a batch that maps the key to a byte
abbrev batch : ℕ → Elements
batch n = record no_elements { key_unordered = a_key ∷ []; value_unordered = value_of_byte n ∷ [] }

abbrev decoded : ℕ → Pairs
decoded n = (plain (107 ∷ []), plain (n ∷ [])) ∷ []

collect_stream-maps_example :
    (d : Pairs) × (collect_stream "get_container"
        (record { batches = batch 1 ∷ batch 2 ∷ []; failure = none })
        content
        env
        start
      ≡ (ok (pairs d), start))
    × ((k : Payload) → get k d ≡ last_of k (flatten (decoded 1 ∷ decoded 2 ∷ [])))
unfolding decode_batch decode_pairs decode_key decode_value decode dict_set
collect_stream-maps_example =
    collect_stream-maps env start refl "get_container" content (batch 1) (batch 2 ∷ []) (decoded 1)
      (decoded 2 ∷ []) (refl, (refl, tt))
