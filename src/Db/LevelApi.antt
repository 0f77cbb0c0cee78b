-- ===== src/Db/LevelApi.antt =====
-- src/db/LevelDbApi.js: its calls of the package `level`, and how often they call back.
use mathlib.Core.List.{append_assoc, append-nil}
use enigma_p2p.Base.{
  String, ◌≡◌, refl, sym, ap, ◌∙◌, Bool, Option, none, some, List, [], ◌∷◌, ◌++◌, map,
  if◌then◌else◌,
}
use enigma_p2p.Base.Dict
use enigma_p2p.Base.Dict.{Dict}

-- A call of a callback: its error, or what it is given.
pub data DbCall (V : Type 0) : Type 0 where
  done : DbCall V
  got : V → DbCall V
  got_list : List (String × V) → DbCall V
  got_all : Dict V → DbCall V
  db_failed closed_error exists_error stream_failed stream_closed : DbCall V

-- The package. A value that is `undefined` is `none`; the flag of a write says that it failed.
pub record Package (V : Type 0) : Type 1 where
  pub Store : Type 0
  pub get : String → Store → Option V
  pub put : String → Option V → Store → Store × Bool
  pub del : String → Store → Store × Bool
  pub batch : List (String × V) → Store → Store × Bool

-- What a read stream emits.
pub data StreamEvent (V : Type 0) : Type 0 where
  item : String → V → StreamEvent V
  stream_error stream_end stream_close : StreamEvent V

module _ {V : Type 0} where
  unfoldable pub written : Bool → DbCall V
  written failed = if failed then db_failed else done

  -- The rest of `_readFromDB` when `info` is what has been read.
  unfoldable pub read_stream : (info : List (String × V)) → List (StreamEvent V) → List (DbCall V)
  read_stream info [] = []
  read_stream info (item k v ∷ es) = read_stream (info ++ (k, v) ∷ []) es
  read_stream info (stream_error ∷ es) = stream_failed ∷ read_stream info es
  read_stream info (stream_close ∷ es) = stream_closed ∷ read_stream info es
  read_stream info (stream_end ∷ es) = got_list info ∷ read_stream info es

  -- `_readFromDB`
  unfoldable pub read_from_db : List (StreamEvent V) → List (DbCall V)
  unfolding read_stream
  read_from_db es = read_stream [] es

  unfoldable pub object_of : List (String × V) → Dict V → Dict V
  object_of [] m = m
  object_of ((k, v) ∷ es) m = object_of es (Dict.put k v m)

  -- The callback of `getAll`: with no error it calls back twice.
  unfoldable pub all_of_call : DbCall V → List (DbCall V)
  unfolding object_of
  all_of_call (got_list l) = got_all (object_of l []) ∷ done ∷ []
  all_of_call c = c ∷ []

  unfoldable pub all_of_calls : List (DbCall V) → List (DbCall V)
  unfolding all_of_call
  all_of_calls [] = []
  all_of_calls (c ∷ cs) = all_of_call c ++ all_of_calls cs

  unfoldable pub get_all : List (StreamEvent V) → List (DbCall V)
  unfolding read_from_db all_of_calls
  get_all es = all_of_calls (read_from_db es)

module _ {V : Type 0} (db : Package V) where
  -- The class: whether `open` was called, and the store.
  pub record LevelDb : Type 0 where
    pub is_open : Bool
    pub store : db.Store

  unfoldable pub delete : String → LevelDb → LevelDb × DbCall V
  unfolding written
  delete k s =
      if s.is_open
      then (let (store, failed) = db.del k s.store in (record s { store = store }, written failed))
      else (s, closed_error)

  unfoldable pub put_value : String → Option V → LevelDb → LevelDb × DbCall V
  unfolding written
  put_value k v s =
      if s.is_open
      then (let (store, failed) = db.put k v s.store in
          (record s { store = store }, written failed))
      else (s, closed_error)

  unfoldable pub get_value : String → LevelDb → DbCall V
  get_value k s =
      if s.is_open
      then (elim (db.get k s.store) [ none ↦ db_failed | some v ↦ got v ])
      else closed_error

  -- `safePut`: the value that is put is that of the failed read, which is `undefined`.
  unfoldable pub safe_put : String → V → LevelDb → LevelDb × DbCall V
  unfolding put_value
  safe_put k v s =
      if s.is_open
      then (elim (db.get k s.store) [ none ↦ put_value k none s | some w ↦ (s, exists_error) ])
      else (s, closed_error)

  unfoldable pub put_batch : List (String × V) → LevelDb → LevelDb × DbCall V
  unfolding written
  put_batch os s =
      if s.is_open
      then (let (store, failed) = db.batch os s.store in
          (record s { store = store }, written failed))
      else (s, closed_error)

  -- Whatever value it is given, `safePut` does the same.
  pub safe_put_ignores_value :
      (k : String) (v w : V) (s : LevelDb) → safe_put k v s ≡ safe_put k w s
  unfolding safe_put
  safe_put_ignores_value k v w s = refl

-- The items of a listing, as the stream emits them.
abbrev pub items : {V : Type 0} → List (String × V) → List (StreamEvent V)
items es = map (λ e. item e.0 e.1) es

read_stream-items :
    {V : Type 0}
    → (info es : List (String × V)) (more : List (StreamEvent V))
    → read_stream info (items es ++ more) ≡ read_stream (info ++ es) more
unfolding read_stream
read_stream-items info [] more = ap (λ l. read_stream l more) (sym (append-nil info))
read_stream-items info ((k, v) ∷ es) more =
    read_stream-items (info ++ (k, v) ∷ []) es more
    ∙ ap (λ l. read_stream l more) (append_assoc info ((k, v) ∷ []) es)

-- `getAll` over a stream that emits its items, ends, and is then closed calls back three times: with
-- the object of the items, with nothing, and with an error.
pub get_all_calls :
    {V : Type 0}
    → (es : List (String × V))
    → get_all (items es ++ (stream_end ∷ stream_close ∷ []))
      ≡ got_all (object_of es []) ∷ done ∷ stream_closed ∷ []
unfolding get_all read_from_db all_of_calls read_stream
get_all_calls es = ap all_of_calls (read_stream-items [] es (stream_end ∷ stream_close ∷ []))
