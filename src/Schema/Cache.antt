-- ===== src/Schema/Cache.antt =====
-- schema/cache.go: the LRU cache of descriptors. A list element of container/list is a cell with an
-- identity; the two maps hold identities, and an entry, which Go's maps point to, lives in the cell of its element. The cache is used by one
-- caller at a time here: the reads of the Go code take the mutex twice.
pub mod Entries
pub mod Size
pub mod Pointers
pub mod Reads
pub mod Answers
pub mod Stores
use hyperway.Prelude.{
  ℕ, ◌+◌, Bool, true, false, ◌&&◌, Option, none, some, List, [], ◌∷◌, ◌==◌, length, if◌then◌else◌,
}
use hyperway.Prelude.Int.{ℤ, pos, ltb_ℤ}
use hyperway.Prelude.Str.{Str, lookup, insert, delete}

-- Which of the two maps an entry belongs to.
pub data Kind : Type 0 where
  of_message of_file : Kind

-- The value of an entry: a message descriptor, which is an interface and may be nil (`none`), or a pointer to a file
-- descriptor, which has its type also where it is nil.
pub data Descriptor (M D : Type 0) : Type 0 where
  message : Option M → Descriptor M D
  file : D → Descriptor M D

-- A cache's answer. `fault` is the panic of a type assertion; `stale` is no value of the program: it stands for the
-- answer of an entry that a map still holds though its element has left the list.
pub data Found {ℓ} (A : Type ℓ) : Type ℓ where
  hit : A → Found A
  miss fault stale : Found A

module _ (M D : Type 0) where
  -- lruEntry with its list element `elem`
  pub record Entry : Type 0 where
    pub elem : ℕ
    pub key : Str
    pub value : Descriptor M D

  -- `lru` has its front at the head; `next` is the identity of the next element.
  pub record LruCache : Type 0 where
    pub max_size : ℤ
    pub messages : List (Str × ℕ)
    pub files : List (Str × ℕ)
    pub lru : List Entry
    pub next : ℕ

module _ {M D : Type 0} where
  abbrev pub kind_of : Descriptor M D → Kind
  kind_of (message m) = of_message
  kind_of (file d) = of_file

  -- the entry behind an identity
  unfoldable pub deref : ℕ → List (Entry M D) → Option (Entry M D)
  deref id [] = none
  deref id (e ∷ l) = if e.elem == id then some e else deref id l

  unfoldable pub remove : ℕ → List (Entry M D) → List (Entry M D)
  remove id [] = []
  remove id (e ∷ l) = if e.elem == id then l else e ∷ remove id l

  -- lru.MoveToFront
  unfoldable pub move_to_front : ℕ → List (Entry M D) → List (Entry M D)
  move_to_front id l = elim (deref id l) [ none ↦ l | some e ↦ e ∷ remove id l ]

  -- entry.value = v
  unfoldable pub set_value : ℕ → Descriptor M D → List (Entry M D) → List (Entry M D)
  set_value id v [] = []
  set_value id v (e ∷ l) = if e.elem == id then record e { value = v } ∷ l else e ∷ set_value id v l

  -- lru.Back
  unfoldable pub back : List (Entry M D) → Option (Entry M D)
  back [] = none
  back (e ∷ []) = some e
  back (e ∷ d ∷ l) = back (d ∷ l)

  unfoldable pub drop_back : List (Entry M D) → List (Entry M D)
  drop_back [] = []
  drop_back (e ∷ []) = []
  drop_back (e ∷ d ∷ l) = e ∷ drop_back (d ∷ l)

  unfoldable pub new_lru_cache : ℤ → LruCache M D
  new_lru_cache max_size = record {
    max_size = max_size;
    messages = [];
    files = [];
    lru = [];
    next = 0;
  }

  abbrev pub table : Kind → LruCache M D → List (Str × ℕ)
  table of_message c = c.messages
  table of_file c = c.files

  abbrev pub with_entry : Kind → Str → ℕ → LruCache M D → LruCache M D
  with_entry of_message key id c = record c { messages = insert key id c.messages }
  with_entry of_file key id c = record c { files = insert key id c.files }

  unfoldable pub evict_oldest : LruCache M D → LruCache M D
  evict_oldest c = elim (back c.lru) [
    | none ↦ c
    | some entry ↦ record c {
      lru = drop_back c.lru;
      messages = delete entry.key c.messages;
      files = delete entry.key c.files;
    }
  ]

  -- lru.PushFront of a new entry, which its map then holds
  unfoldable pub push_front : Str → Descriptor M D → LruCache M D → LruCache M D
  push_front key v c =
      with_entry (kind_of v) key c.next (record c {
        lru = record { elem = c.next; key = key; value = v } ∷ c.lru;
        next = c.next + 1;
      })

  unfoldable pub evict_if_full : LruCache M D → LruCache M D
  evict_if_full c =
      if ltb_ℤ (pos 0) c.max_size && ltb_ℤ c.max_size (pos (length c.lru))
      then evict_oldest c
      else c

  -- the body that PutMessage and PutFile share
  unfoldable pub put : Str → Descriptor M D → LruCache M D → LruCache M D
  put key v c = elim (lookup key (table (kind_of v) c)) [
    | some id ↦ record c { lru = move_to_front id (set_value id v c.lru) }
    | none ↦ evict_if_full (push_front key v c)
  ]

  unfoldable pub put_message : Str → Option M → LruCache M D → LruCache M D
  put_message key md c = put key (message md) c

  unfoldable pub put_file : Str → D → LruCache M D → LruCache M D
  put_file key fd c = put key (file fd) c

  -- entry.value.(MessageDescriptor), entry.value.(*FileDescriptorProto)
  abbrev pub as_message : Option (Entry M D) → Found M
  as_message none = stale
  as_message (some e) = elim e.value [
    | message m ↦ elim m [ none ↦ fault | some md ↦ hit md ]
    | file d ↦ fault
  ]

  abbrev pub as_file : Option (Entry M D) → Found D
  as_file none = stale
  as_file (some e) = elim e.value [ message m ↦ fault | file d ↦ hit d ]

  unfoldable pub get_message : Str → LruCache M D → Found M × LruCache M D
  get_message key c = elim (lookup key c.messages) [
    | none ↦ (miss, c)
    | some id ↦ (as_message (deref id c.lru), record c { lru = move_to_front id c.lru })
  ]

  unfoldable pub get_file : Str → LruCache M D → Found D × LruCache M D
  get_file key c = elim (lookup key c.files) [
    | none ↦ (miss, c)
    | some id ↦ (as_file (deref id c.lru), record c { lru = move_to_front id c.lru })
  ]

  unfoldable pub clear : LruCache M D → LruCache M D
  clear c = record c { messages = []; files = []; lru = [] }

  unfoldable pub size : LruCache M D → ℕ
  size c = length c.lru

-- The calls of the interface `Cache`.
pub data Call (M D : Type 0) : Type 0 where
  get_message_call : Str → Call M D
  put_message_call : Str → Option M → Call M D
  get_file_call : Str → Call M D
  put_file_call : Str → D → Call M D
  clear_call : Call M D

module _ {M D : Type 0} where
  unfoldable pub after : Call M D → LruCache M D → LruCache M D
  after (get_message_call key) c = (get_message key c).1
  after (put_message_call key md) c = put_message key md c
  after (get_file_call key) c = (get_file key c).1
  after (put_file_call key fd) c = put_file key fd c
  after clear_call c = clear c

  unfoldable pub run : List (Call M D) → LruCache M D → LruCache M D
  run [] c = c
  run (call ∷ calls) c = run calls (after call c)
