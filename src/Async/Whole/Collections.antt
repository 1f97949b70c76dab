-- ===== src/Async/Whole/Collections.antt =====
-- Containers that are read whole, as lists and as dicts: the asynchronous operations return, or
-- raise, what the synchronous ones do.
use hurricache_python_client.Base.{
  ◌≤◌, ◌≡◌, refl, ap, ◌∙◌, Bool, some, List, [], ◌∷◌, if◌then◌else◌, length,
}
use hurricache_python_client.Models.{Bytes, Payload, plain, ordered}
use hurricache_python_client.Errors.{Error, Collection, items, pairs}
use hurricache_python_client.Effects.{Env, World, M, pure, raise, ◌>>=◌}
use hurricache_python_client.Effects
use hurricache_python_client.Operation.{Client, wrap}
use hurricache_python_client.Streams.{Pairs}
use hurricache_python_client.Wire.{max_decoded_bytes}
use hurricache_python_client.Wire.Gzip.{GzipLaws}
use hurricache_python_client.Wire.RoundTrip.{raw_content}
use hurricache_python_client.Client.Requests.{Target}
use hurricache_python_client.Client.Reads as Sync_reads
use hurricache_python_client.Client.Collections as Sync
use hurricache_python_client.Async.Streaming.{continue_agree, operation_agree}
use hurricache_python_client.Async.Reads.{get_container}
use hurricache_python_client.Async.Collections.{
  is_plain, is_ordered, every, keys_in, list_of, dict_of, stream_list, stream_vector, stream_queue,
  stream_set, stream_map, stream_ordered_set, stream_ordered_map,
}
use hurricache_python_client.Async.Whole.{get_container_agree}

plain_agree : (xs : List Payload) → every is_plain xs ≡ Sync.all_plain xs
plain_agree [] = refl
plain_agree (plain _ ∷ xs) = plain_agree xs
plain_agree (ordered _ _ ∷ xs) = refl

ordered_agree : (xs : List Payload) → every is_ordered xs ≡ Sync.all_ordered xs
ordered_agree [] = refl
ordered_agree (ordered _ _ ∷ xs) = ordered_agree xs
ordered_agree (plain _ ∷ xs) = refl

keys_agree : (ps : Pairs) → keys_in ps ≡ Sync.keys_of ps
keys_agree [] = refl
keys_agree ((k, v) ∷ ps) = ap (λ ks. k ∷ ks) (keys_agree ps)

module _ (test : Payload → Bool) (all : List Payload → Bool)
    (same : (xs : List Payload) → every test xs ≡ all xs) where
  list_agree : (r : Collection) → list_of test r ≡ Sync.as_list all r
  unfolding list_of Sync.as_list
  list_agree (items []) = refl
  list_agree (pairs []) = refl
  list_agree (items (x ∷ xs)) =
      ap (λ b. if b then pure (x ∷ xs) else raise Sync.unexpected) (same (x ∷ xs))
  list_agree (pairs (p ∷ ps)) = refl

  dict_agree : (error : Error) (r : Collection) → dict_of error test r ≡ Sync.as_dict error all r
  unfolding dict_of Sync.as_dict
  dict_agree error (items []) = refl
  dict_agree error (pairs []) = refl
  dict_agree error (items (x ∷ xs)) = refl
  dict_agree error (pairs (p ∷ ps)) =
      ap (λ b. if b then pure (p ∷ ps) else raise error)
        (ap (every test) (keys_agree (p ∷ ps)) ∙ same (Sync.keys_of (p ∷ ps)))

module _ (env : Env) (c : Client) (t : Target) (content : Bytes)
    (is_content : raw_content env t.key ≡ some content) (laws : GzipLaws env)
    (fits : length content ≤ max_decoded_bytes) where
  -- what is made of the container is the same
  made_agree :
      {A : Type 0} (f g : Collection → M A) (w : World)
      → ((r : Collection) → f r ≡ g r)
      → wrap c t.timeout (get_container c t >>= f) env w
        ≡ wrap c t.timeout (Sync_reads.get_container c t >>= g) env w
  unfolding wrap
  made_agree f g w same = operation_agree env c _ _ _ w λ v.
      ap (λ x. Effects.continue x.0 f env x.1)
        (get_container_agree env c t content is_content laws fits v)
      ∙ continue_agree env _ f g _ (λ r u. ap (λ m. m env u) (same r))

-- The operations that read a whole container, of the two clients, in this state.
abbrev pub CollectionsAgree : Env → Client → Target → World → Type 0
CollectionsAgree env c t w =
    (get_container c t env w ≡ Sync_reads.get_container c t env w)
    × (stream_list c t env w ≡ Sync.stream_list c t env w)
    × (stream_vector c t env w ≡ Sync.stream_vector c t env w)
    × (stream_queue c t env w ≡ Sync.stream_queue c t env w)
    × (stream_set c t env w ≡ Sync.stream_set c t env w)
    × (stream_ordered_set c t env w ≡ Sync.stream_ordered_set c t env w)
    × (stream_map c t env w ≡ Sync.stream_map c t env w)
    × (stream_ordered_map c t env w ≡ Sync.stream_ordered_map c t env w)

-- If gzip obeys its law, a container whose key is bytes or text of at most the decoded-size limit
-- is read by the asynchronous client as by the synchronous one, as it is and by each of the seven
-- operations that return it as a list or a dict: the same requests, result or error.
pub collections_agree :
    (env : Env) (c : Client) (t : Target) (content : Bytes)
    → raw_content env t.key ≡ some content
    → GzipLaws env
    → length content ≤ max_decoded_bytes
    → (w : World) → CollectionsAgree env c t w
unfolding stream_list Sync.stream_list stream_vector Sync.stream_vector stream_queue
    Sync.stream_queue stream_set Sync.stream_set stream_ordered_set Sync.stream_ordered_set
    stream_map Sync.stream_map stream_ordered_map Sync.stream_ordered_map
collections_agree env c t content is_content laws fits w =
    let lists = list_agree is_plain Sync.all_plain plain_agree in
    let made = λ (f g : Collection → M (List Payload)).
      made_agree env c t content is_content laws fits f g w in
    (
      get_container_agree env c t content is_content laws fits w,
      made _ _ lists,
      made _ _ lists,
      made _ _ lists,
      made _ _ lists,
      made _ _ (list_agree is_ordered Sync.all_ordered ordered_agree),
      made_agree env c t content is_content laws fits _ _ w
          (dict_agree is_plain Sync.all_plain plain_agree Sync.unexpected),
      made_agree env c t content is_content laws fits _ _ w
          (dict_agree is_ordered Sync.all_ordered ordered_agree Sync.unexpected),
    )
