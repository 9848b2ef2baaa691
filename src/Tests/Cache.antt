-- ===== src/Tests/Cache.antt =====
-- The cache, with one entry of each kind.
use hyperway.Prelude.{ℕ, ◌≤◌, ◌≡◌, ◌≢◌, refl, some, List, [], ◌∷◌, arith}
use hyperway.Prelude.Int.{pos}
use hyperway.Prelude.Str.{str, lookup, insert, str_eq}
use hyperway.Schema.Cache.{
  Entry, LruCache, Call, put_message_call, put_file_call, file, hit, back, run, new_lru_cache, size,
  get_message, get_file, put_message, put_file, put, after, evict_if_full, push_front,
  move_to_front, deref, set_value, remove,
}
use hyperway.Schema.Cache.Answers.{IsAnswered, run_no_fault}
use hyperway.Schema.Cache.Reads.{run-IsSound}
use hyperway.Schema.Cache.Size.{run-size-le}
use hyperway.Schema.Cache.Stores.{get_message-put_message}

abbrev calls : List (Call ℕ ℕ)
calls =
    put_message_call (str "a") (some 1)
    ∷ put_file_call (str "b") 2
    ∷ put_message_call (str "a") (some 3)
    ∷ []

run_no_fault_example :
    IsAnswered (get_message (str "a") (run calls (new_lru_cache (pos 2)))).0
    × IsAnswered (get_file (str "a") (run calls (new_lru_cache (pos 2)))).0
run_no_fault_example = run_no_fault calls (pos 2) (str "a") ((λ e. cc e), (tt, ((λ e. cc e), tt)))

run-size-le_example : size (run calls (new_lru_cache (pos 1))) ≤ 1
run-size-le_example = run-size-le calls 1 (omega arith)

last_stored :
    back (run calls (new_lru_cache (pos 2))).lru
    ≡ some (record { elem = 1; key = str "b"; value = file 2 })
unfolding run new_lru_cache back after put_message put lookup put_file evict_if_full push_front
    insert str_eq move_to_front deref set_value remove
last_stored = refl

other_key : (b : Entry ℕ ℕ) → back (run calls (new_lru_cache (pos 2))).lru ≡ some b → b.key ≢ []
other_key b e same = cc (last_stored, e, same)

get_message-put_message_example :
    (get_message ([]) (put_message ([]) (some 4) (run calls (new_lru_cache (pos 2))))).0 ≡ hit 4
get_message-put_message_example =
    get_message-put_message ([]) 4 (run calls (new_lru_cache (pos 2))) (run-IsSound calls (pos 2))
      other_key

-- a full cache of one file
abbrev full : LruCache ℕ ℕ
full = record {
  max_size = pos 1;
  messages = [];
  files = (str "a", 0) ∷ [];
  lru = record { elem = 0; key = str "a"; value = file 2 } ∷ [];
  next = 1;
}
