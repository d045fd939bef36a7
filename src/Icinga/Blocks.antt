-- ===== src/Icinga/Blocks.antt =====
-- About the blocks of the status file: what is printed is read again.
use fullerite.Base.{
  Bool, true, false, none, some, List, [], ◌∷◌, ◌++◌, map, ◌≡◌, refl, ap, sym, ◌∙◌, All,
}
use mathlib.Core.List.{reverse, append-nil, append_assoc, reverse-append, reverse-reverse}
use fullerite.Base.Text.{
  Str, codes, str_eq, starts_with, ends_with, split, lstrip, is_space, Lacks, split-append,
  join-split, split_cons,
}
use fullerite.Base.Dict.{Dict, or_else, insert, update, lookup_last, lookup-update}
use fullerite.Icinga.Parse.{
  Entity, Stats, Reading, trim, drop_char, rstrip_char, add_chunk, add_chunks, parse_config_buffer,
  store, parse_stats_file, no_stats, no_reading, store_entity, read_trimmed, read_lines,
}

-- the kind of entity, and its keys with their values
pub record Block : Type 0 where
  pub kind : Str
  pub items : Dict Str

abbrev pub item_line : Str × Str → Str
item_line (k, v) = k ++ b'=' ∷ v

abbrev pub head_line : Str → Str
head_line kind = kind ++ b' ' ∷ b'{' ∷ []

-- the lines of blocks, without indentation
abbrev pub block_lines : List Block → List Str
block_lines [] = []
block_lines (b ∷ bs) = head_line b.kind ∷ (map item_line b.items ++ codes "}" ∷ block_lines bs)

-- The text does not begin with white space.
abbrev pub StartsPlain : Str → Type 0
StartsPlain [] = Unit
StartsPlain (c ∷ s) = is_space c ≡ false

abbrev pub IsTrimmed : Str → Type 0
IsTrimmed s = StartsPlain s × StartsPlain (reverse s)

-- An item whose line is neither a comment nor a brace's, and which can be told apart again.
abbrev pub IsItem : Str × Str → Type 0
IsItem (k, v) =
    Lacks b'=' k
    × IsTrimmed k
    × IsTrimmed v
    × (starts_with (item_line (k, v)) (codes "#") ≡ false)
    × (ends_with (item_line (k, v)) (codes "{") ≡ false)
    × (ends_with (item_line (k, v)) (codes "}") ≡ false)

unfoldable pub IsBlock : Block → Type 0
unfolding lookup_last
IsBlock b =
    IsTrimmed b.kind
    × (starts_with b.kind (codes "#") ≡ false)
    × All IsItem b.items
    × (lookup_last (codes "_type") b.items ≡ none)

abbrev pub entity_of : Block → Entity
unfolding update
entity_of b = update ((codes "_type", b.kind) ∷ []) b.items

StartsPlain-lstrip : (s : Str) → StartsPlain s → lstrip s ≡ s
StartsPlain-lstrip [] h = refl
StartsPlain-lstrip (c ∷ s) h = rw h refl

IsTrimmed-trim : (s : Str) → IsTrimmed s → trim s ≡ s
IsTrimmed-trim s (h, k) =
    ap (λ t. reverse (lstrip (reverse t))) (StartsPlain-lstrip s h)
    ∙ ap reverse (StartsPlain-lstrip (reverse s) k)
    ∙ reverse-reverse s

trim-append_space : (s : Str) → IsTrimmed s → trim (s ++ b' ' ∷ []) ≡ s
trim-append_space [] h = refl
trim-append_space (c ∷ s) (h, k) =
    ap (λ t. reverse (lstrip (reverse t))) (StartsPlain-lstrip (c ∷ s ++ b' ' ∷ []) h)
    ∙ ap (λ t. reverse (lstrip t)) (reverse-append (c ∷ s) (b' ' ∷ []))
    ∙ ap reverse (StartsPlain-lstrip (reverse (c ∷ s)) k)
    ∙ reverse-reverse (c ∷ s)

-- the kind, read from the head line
trim-head_line : (s : Str) → IsTrimmed s → trim (rstrip_char b'{' (head_line s)) ≡ s
trim-head_line s h =
    ap (λ t. trim (reverse (drop_char b'{' t))) (reverse-append s (b' ' ∷ b'{' ∷ []))
    ∙ ap (λ t. trim (reverse t)) (sym (reverse-append s (b' ' ∷ [])))
    ∙ ap trim (reverse-reverse (s ++ b' ' ∷ []))
    ∙ trim-append_space s h

add_chunk-item :
    (k v : Str) (e : Entity)
    → Lacks b'=' k
    → IsTrimmed k
    → IsTrimmed v
    → add_chunk (split b'=' (item_line (k, v))) e ≡ insert k v e
unfolding add_chunk
add_chunk-item k v e lacks tk tv =
    let (p, ps, s) = split_cons b'=' v in
    rw
      (
        split-append b'=' k v lacks,
        s,
        sym s,
        join-split b'=' v,
        IsTrimmed-trim k tk,
        IsTrimmed-trim v tv,
      )
      refl

add_chunks-items :
    (items : Dict Str) (e : Entity)
    → All IsItem items
    → add_chunks (map item_line items) e ≡ update e items
unfolding add_chunks update
add_chunks-items [] e h = refl
add_chunks-items ((k, v) ∷ items) e ((lacks, tk, tv, _, _, _), hs) =
    ap (add_chunks (map item_line items)) (add_chunk-item k v e lacks tk tv)
    ∙ add_chunks-items items (insert k v e) hs

head_line-ends_with : (s : Str) → ends_with (head_line s) (codes "{") ≡ true
head_line-ends_with s = ap (λ t. starts_with t (codes "{")) (reverse-append s (b' ' ∷ b'{' ∷ []))

parse_config_buffer-block :
    (b : Block)
    → IsBlock b
    → parse_config_buffer (head_line b.kind ∷ map item_line b.items) ≡ entity_of b
unfolding parse_config_buffer IsBlock entity_of update
parse_config_buffer-block b (t, _, items, _) =
    rw (head_line-ends_with b.kind, trim-head_line b.kind t) (add_chunks-items b.items _ items)

-- The loop over lines that are trimmed already.
read_all : List Str → Reading → Reading
read_all [] r = r
read_all (l ∷ ls) r = read_all ls (read_trimmed l r)

read_all-append :
    (ls ms : List Str) (r : Reading) → read_all (ls ++ ms) r ≡ read_all ms (read_all ls r)
unfolding read_all
read_all-append [] ms r = refl
read_all-append (l ∷ ls) ms r = read_all-append ls ms (read_trimmed l r)

abbrev pub clean : Str → Str
clean l = trim (rstrip_char 10 l)

read_lines-clean : (ls : List Str) (r : Reading) → read_lines ls r ≡ read_all (map clean ls) r
unfolding read_lines read_all
read_lines-clean [] r = refl
read_lines-clean (l ∷ ls) r = read_lines-clean ls (read_trimmed (clean l) r)

abbrev reading : Stats → List Str → Bool → Reading
reading s buffer save = record { stats = s; fbuffer = buffer; save_buffer = save }

head_line-plain :
    (s : Str)
    → starts_with s (codes "#") ≡ false
    → (str_eq (head_line s) [] ≡ false) × (starts_with (head_line s) (codes "#") ≡ false)
head_line-plain [] h = (refl, refl)
head_line-plain (c ∷ s) h = (refl, h)

read_trimmed-head :
    (k : Str) (s : Stats) (save : Bool)
    → starts_with k (codes "#") ≡ false
    → read_trimmed (head_line k) (reading s [] save) ≡ reading s (head_line k ∷ []) true
unfolding read_trimmed
read_trimmed-head k s save h =
    let (p, q) = head_line-plain k h in rw (p, q, head_line-ends_with k) refl

item_line-nonempty : (k v : Str) → str_eq (item_line (k, v)) [] ≡ false
item_line-nonempty [] v = refl
item_line-nonempty (c ∷ k) v = refl

read_trimmed-item :
    (k v : Str) (s : Stats) (buffer : List Str)
    → IsItem (k, v)
    → read_trimmed (item_line (k, v)) (reading s buffer true)
      ≡ reading s (buffer ++ item_line (k, v) ∷ []) true
unfolding read_trimmed
read_trimmed-item k v s buffer (_, _, _, p, q, r) = rw (item_line-nonempty k v, p, q, r) refl

read_all-items :
    (items : Dict Str) (s : Stats) (buffer : List Str)
    → All IsItem items
    → read_all (map item_line items) (reading s buffer true)
      ≡ reading s (buffer ++ map item_line items) true
unfolding read_all
read_all-items [] s buffer h = ap (λ b. reading s b true) (sym (append-nil buffer))
read_all-items ((k, v) ∷ items) s buffer (h, hs) =
    ap (read_all (map item_line items)) (read_trimmed-item k v s buffer h)
    ∙ read_all-items items s (buffer ++ item_line (k, v) ∷ []) hs
    ∙ ap (λ b. reading s b true) (append_assoc buffer (item_line (k, v) ∷ []) (map item_line items))

-- the dict after the blocks
unfoldable pub store_blocks : List Block → Stats → Stats
unfolding store update
store_blocks [] s = s
store_blocks (b ∷ bs) s = store_blocks bs (store b.kind (entity_of b) s)

store_entity-block :
    (b : Block) (s : Stats)
    → IsBlock b
    → store_entity (entity_of b) s ≡ store b.kind (entity_of b) s
unfolding store_entity IsBlock entity_of update
store_entity-block b s (_, _, _, h) =
    ap (λ o. elim o [ none ↦ s | some kind ↦ store kind (entity_of b) s ])
      (lookup-update (codes "_type") ((codes "_type", b.kind) ∷ []) b.items
        ∙ ap (λ o. or_else o (some b.kind)) h)

read_trimmed-close :
    (b : Block) (s : Stats)
    → IsBlock b
    → read_trimmed (codes "}") (reading s (head_line b.kind ∷ map item_line b.items) true)
      ≡ reading (store b.kind (entity_of b) s) [] true
unfolding read_trimmed
read_trimmed-close b s h =
    ap (λ t. reading t [] true)
      (ap (λ e. store_entity e s) (parse_config_buffer-block b h) ∙ store_entity-block b s h)

read_all-blocks :
    (bs : List Block) (s : Stats) (save : Bool)
    → All IsBlock bs
    → Reading.stats (read_all (block_lines bs) (reading s [] save)) ≡ store_blocks bs s
unfolding read_all store_blocks IsBlock entity_of update
read_all-blocks [] s save h = refl
read_all-blocks (b ∷ bs) s save (h, hs) =
    let close = codes "}" ∷ block_lines bs in
    let lines = map item_line b.items in
    let (_, plain, items, _) = h in
    ap (λ r. Reading.stats (read_all (lines ++ close) r)) (read_trimmed-head b.kind s save plain)
    ∙ ap Reading.stats (read_all-append lines close (reading s (head_line b.kind ∷ []) true))
    ∙ ap (λ r. Reading.stats (read_all close r))
        (read_all-items b.items s (head_line b.kind ∷ []) items)
    ∙ ap (λ r. Reading.stats (read_all (block_lines bs) r)) (read_trimmed-close b s h)
    ∙ read_all-blocks bs (store b.kind (entity_of b) s) true hs

-- what the file is read as
pub parse_stats_file-blocks :
    (bs : List Block) (lines : List Str)
    → All IsBlock bs
    → map clean lines ≡ block_lines bs
    → parse_stats_file (some lines) ≡ store_blocks bs no_stats
unfolding parse_stats_file
parse_stats_file-blocks bs lines h e =
    ap Reading.stats (read_lines-clean lines no_reading)
    ∙ ap (λ ls. Reading.stats (read_all ls no_reading)) e
    ∙ read_all-blocks bs no_stats false h
