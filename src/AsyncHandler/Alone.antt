-- ===== src/AsyncHandler/Alone.antt =====
-- `AsyncScimHandler` over `AsyncInMemoryStorage`, one request at a time: it is `ScimHandler` over the
-- storage that the asynchronous one serves.
use scim2_server.Models.{Meta, Resource, ResourceType}
use scim2_server.Conditions.{Conditions}
use scim2_server.Service.{ScimService}
use scim2_server.Service.Answers.{apply_replacement, apply_patch, check_deletion}
use scim2_server.AsyncHandler.{
  Call, Answer, Coroutine, done, await, ◌>>>=◌, attempt, awaited, asserting, ImmediateStorage,
  async_search_page, run, serve_call,
}
use scim2_server.AsyncHandler as Async
use scim2_server.Handler.{
  Act, go_on, lift, ◌>>>◌, with_meta, ScimStorage, projection, search_page, handled, when_given,
}
use scim2_server.Handler as Sync
use scim2_server.Base.{
  ◌≡◌, refl, ◌∙◌, Bool, true, false, Option, none, some, if◌then◌else◌, nat_eq, Text, text_eq,
  option_text_eq, Outcome, ok, err, Exception,
}

-- `AsyncInMemoryStorage` of scim2_server/memory.py: each call is the one of the storage that it
-- serves, and awaits nothing.
abbrev pub async_in_memory : {P C S : Type 0} → ScimStorage P C S → ImmediateStorage P C S
async_in_memory storage = record {
  get = λ rt id p.
      storage.get rt id (elim p [ none ↦ none | some parameters ↦ projection storage parameters ]);
  search = λ rts request position. search_page storage rts request position;
  create = λ rt r. storage.create rt r;
  update = λ rt r v. storage.update rt r v;
  delete = λ rt id v. storage.delete rt id v;
  supports_cursors = true;
  search_takes_position = true;
  get_takes_response_parameters = true;
}

pub run->>>= :
    {P C S A B : Type 0} (storage : ImmediateStorage P C S) (m : Coroutine P C A)
    (f : A → Coroutine P C B) (s : S)
    → run storage (m >>>= f) s ≡ go_on (λ a. run storage (f a)) (run storage m s)
run->>>= storage (done (ok a)) f s = refl
run->>>= storage (done (err e)) f s = refl
run->>>= storage (await c k) f s =
    run->>>= storage (k (serve_call storage c s).0) f (serve_call storage c s).1

pub run-attempt :
    {P C S A B : Type 0} (storage : ImmediateStorage P C S) (m : Coroutine P C A)
    (f : Outcome A → Coroutine P C B) (s : S)
    → run storage (attempt m f) s ≡ run storage (f (run storage m s).0) (run storage m s).1
run-attempt storage (done o) f s = refl
run-attempt storage (await c k) f s =
    run-attempt storage (k (serve_call storage c s).0) f (serve_call storage c s).1

module _ {P D J C S : Type 0} (sv : ScimService P D J C) (storage : ScimStorage P C S) where
  -- A coroutine that runs alone does what a step does.
  abbrev pub Runs : {A : Type 0} → Coroutine P C A → Act S A → Type 0
  Runs m n = (s : S) → run (async_in_memory storage) m s ≡ n s

  pub then-Runs :
      {A B : Type 0} (m : Coroutine P C A) (f : A → Coroutine P C B) (n : Act S A) (g : A → Act S B)
      → Runs m n
      → ((a : A) → Runs (f a) (g a))
      → Runs (m >>>= f) (n >>> g)
  then-Runs {A} {B} m f n g hm hf s =
      run->>>= (async_in_memory storage) m f s ∙ rw (hm s) (after (n s))
    where
      after :
          (result : Outcome A × S)
          → go_on (λ a. run (async_in_memory storage) (f a)) result ≡ go_on g result
      after (ok a, t) = hf a t
      after (err e, t) = refl

  pub given-Runs :
      {A B : Type 0} (o : Outcome A) (f : A → Coroutine P C B) (g : A → Act S B)
      → ((a : A) → Runs (f a) (g a))
      → Runs (done o >>>= f) (lift o >>> g)
  given-Runs o f g = then-Runs (done o) f (lift o) g (λ s. refl)

  pub answer-Runs :
      {A B : Type 0} (m : Coroutine P C A) (n : Act S A) (f : A → Outcome B)
      → Runs m n
      → Runs (m >>>= λ a. done (f a)) (n >>> λ a. lift (f a))
  answer-Runs m n f h = then-Runs m _ n _ h (λ a s. refl)

  asserting-Runs :
      {A : Type 0} (o : Option Meta) (f : Meta → Coroutine P C A) (g : Meta → Act S A)
      → ((m : Meta) → Runs (f m) (g m))
      → Runs (asserting o f) (with_meta o g)
  asserting-Runs none f g h s = refl
  asserting-Runs (some m) f g h s = h m s

  pub when_given-Runs :
      {A B : Type 0} (o : Option A) (m : Coroutine P C B) (f : A → Coroutine P C B) (n : Act S B)
      (g : A → Act S B)
      → Runs m n
      → ((a : A) → Runs (f a) (g a))
      → Runs (when_given o m f) (when_given o n g)
  when_given-Runs none m f n g hm hf = hm
  when_given-Runs (some a) m f n g hm hf = hf a

  pub handled-Runs :
      {A B : Type 0} (o : Outcome A) (h : Exception → Coroutine P C B) (f : A → Coroutine P C B)
      (i : Exception → Act S B) (g : A → Act S B)
      → ((e : Exception) → Runs (h e) (i e))
      → ((a : A) → Runs (f a) (g a))
      → Runs (handled o h f) (handled o i g)
  handled-Runs (ok a) h f i g hh hf = hf a
  handled-Runs (err e) h f i g hh hf = hh e

  pub if-Runs :
      {A : Type 0} (b : Bool) (m m' : Coroutine P C A) (n n' : Act S A)
      → Runs m n
      → Runs m' n'
      → Runs (if b then m else m') (if b then n else n')
  if-Runs true m m' n n' h h' = h
  if-Runs false m m' n n' h h' = h'

  write_changed-Runs :
      (rt : ResourceType) (current : Resource) (v : Option Text) (o : Option Resource)
      → Runs
          (Async.Resources.write_changed sv (async_in_memory storage) rt current v o)
          (Sync.write_changed sv storage rt current v o)
  write_changed-Runs rt current v none s = refl
  write_changed-Runs rt current v (some r) s = refl

  pub replace_resource-Runs :
      (rt : ResourceType) (current replacement : Resource) (c : Conditions)
      → Runs
          (Async.Resources.replace_resource sv (async_in_memory storage) rt current replacement c)
          (Sync.replace_resource sv storage rt current replacement c)
  unfolding Async.Resources.replace_resource Sync.replace_resource
  replace_resource-Runs rt current replacement c = asserting-Runs current.meta _ _ (λ m.
      given-Runs (apply_replacement sv current replacement c) _ _
        (write_changed-Runs rt current m.version))

  pub patch_resource-Runs :
      (rt : ResourceType) (id : Text) (op : D) (c : Conditions)
      → Runs
          (Async.Resources.patch_resource sv (async_in_memory storage) rt id op c)
          (Sync.patch_resource sv storage rt id op c)
  unfolding Async.Resources.patch_resource Sync.patch_resource
  patch_resource-Runs rt id op c =
      then-Runs (awaited (Call.get rt id none)) _ (storage.get rt id none) _ (λ s. refl)
        (λ current. asserting-Runs current.meta _ _ (λ m.
          given-Runs (apply_patch sv current op c) _ _ (write_changed-Runs rt current m.version)))

  pub delete_resource-Runs :
      (rt : ResourceType) (id : Text) (c : Conditions)
      → Runs
          (Async.Resources.delete_resource sv (async_in_memory storage) rt id c)
          (Sync.delete_resource sv storage rt id c)
  unfolding Async.Resources.delete_resource Sync.delete_resource
  delete_resource-Runs rt id c =
      then-Runs (awaited (Call.get rt id none)) _ (storage.get rt id none) _ (λ s. refl)
        (λ current.
          given-Runs (check_deletion sv current c) _ _
            (λ _. asserting-Runs current.meta _ _ (λ m s. refl)))
