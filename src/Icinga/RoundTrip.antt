-- ===== src/Icinga/RoundTrip.antt =====
-- About the status file: which entities the reader makes of it, kind by kind.
use fullerite.Base.{
  Bool, true, false, Option, none, some, List, [], ◌∷◌, ◌++◌, map, ◌≡◌, refl, ap, sym, ◌∙◌, All,
  arith, if◌then◌else◌,
}
use mathlib.Core.List.{append_assoc, append-nil}
use mathlib.Core.Path.{subst}
use fullerite.Base.Text.{Str, codes, str_eq, str_eq→eq, str_mem}
use fullerite.Base.Dict.{lookup, lookup-insert}
use fullerite.Icinga.Parse.{Entity, Stats, no_stats, list_or_empty, store, parse_stats_file}
use fullerite.Icinga.Blocks.{
  Block, block_lines, IsBlock, entity_of, clean, store_blocks, parse_stats_file-blocks,
}

-- the entities of a kind, in the order of the file
pub entities_of : Str → List Block → List Entity
entities_of kind [] = []
entities_of kind (b ∷ bs) =
    let rest = entities_of kind bs in if str_eq b.kind kind then entity_of b ∷ rest else rest

-- the last entity of a kind, if there is one
pub last_of : Str → List Block → Option Entity → Option Entity
last_of kind [] found = found
last_of kind (b ∷ bs) found =
    last_of kind bs (if str_eq b.kind kind then some (entity_of b) else found)

abbrev pub single_kinds : List Str
single_kinds = codes "info" ∷ codes "programstatus" ∷ []

store-others :
    (kind k : Str) (e : Entity) (s : Stats)
    → str_mem kind single_kinds ≡ false
    → list_or_empty (lookup kind (Stats.others (store k e s)))
      ≡ list_or_empty (lookup kind s.others) ++ (if str_eq k kind then e ∷ [] else [])
unfolding store
store-others kind k e s h = ground (
  arith,
  str_eq→eq k kind,
  str_eq→eq k (codes "info"),
  str_eq→eq k (codes "programstatus"),
  lookup-insert k kind (list_or_empty (lookup k s.others) ++ e ∷ []) s.others,
  append-nil (list_or_empty (lookup kind s.others)),
)

store-info :
    (k : Str) (e : Entity) (s : Stats)
    → Stats.info (store k e s) ≡ (if str_eq k (codes "info") then some e else s.info)
unfolding store
store-info k e s = ground arith

store-programstatus :
    (k : Str) (e : Entity) (s : Stats)
    → Stats.programstatus (store k e s)
      ≡ (if str_eq k (codes "programstatus") then some e else s.programstatus)
unfolding store
store-programstatus k e s = ground (arith, str_eq→eq k (codes "info"))

ite_cons :
    (b : Bool) (e : Entity) (l : List Entity)
    → (if b then e ∷ [] else []) ++ l ≡ (if b then e ∷ l else l)
ite_cons true e l = refl
ite_cons false e l = refl

store_blocks-others :
    (kind : Str) (bs : List Block) (s : Stats)
    → str_mem kind single_kinds ≡ false
    → list_or_empty (lookup kind (Stats.others (store_blocks bs s)))
      ≡ list_or_empty (lookup kind s.others) ++ entities_of kind bs
unfolding store_blocks entities_of
store_blocks-others kind [] s h = sym (append-nil _)
store_blocks-others kind (b ∷ bs) s h =
    let e = entity_of b in
    store_blocks-others kind bs (store b.kind e s) h
    ∙ ap (λ l. l ++ entities_of kind bs) (store-others kind b.kind e s h)
    ∙ append_assoc (list_or_empty (lookup kind s.others))
        (if str_eq b.kind kind then e ∷ [] else []) (entities_of kind bs)
    ∙ ap (λ l. list_or_empty (lookup kind s.others) ++ l)
        (ite_cons (str_eq b.kind kind) e (entities_of kind bs))

store_blocks-info :
    (bs : List Block) (s : Stats)
    → Stats.info (store_blocks bs s) ≡ last_of (codes "info") bs s.info
unfolding store_blocks last_of
store_blocks-info [] s = refl
store_blocks-info (b ∷ bs) s =
    store_blocks-info bs (store b.kind (entity_of b) s)
    ∙ ap (last_of (codes "info") bs) (store-info b.kind (entity_of b) s)

store_blocks-programstatus :
    (bs : List Block) (s : Stats)
    → Stats.programstatus (store_blocks bs s) ≡ last_of (codes "programstatus") bs s.programstatus
unfolding store_blocks last_of
store_blocks-programstatus [] s = refl
store_blocks-programstatus (b ∷ bs) s =
    store_blocks-programstatus bs (store b.kind (entity_of b) s)
    ∙ ap (last_of (codes "programstatus") bs) (store-programstatus b.kind (entity_of b) s)

-- What the dict holds of the blocks: the last entity of the two single kinds, and all entities of
-- any other kind.
abbrev pub Holds : List Block → Stats → Type 0
unfolding entities_of last_of lookup
Holds bs s =
    (s.info ≡ last_of (codes "info") bs none)
    × (s.programstatus ≡ last_of (codes "programstatus") bs none)
    × ((kind : Str)
        → str_mem kind single_kinds ≡ false
        → list_or_empty (lookup kind s.others) ≡ entities_of kind bs)

-- A status file whose lines, without the white space around them, are those of printed blocks is
-- read back: the last block of the kinds info and programstatus is kept, and of any other kind all
-- blocks, in their order, each with its keys and values as they were written, the last of a key
-- that stands twice; for kinds, keys and values without white space around them, keys without an
-- equals sign and other than _type, and lines that are no comments and end in no brace.
pub parse_stats_file-Holds :
    (bs : List Block) (lines : List Str)
    → All IsBlock bs
    → map clean lines ≡ block_lines bs
    → Holds bs (parse_stats_file (some lines))
unfolding Holds
parse_stats_file-Holds bs lines h e =
    subst (Holds bs) (sym (parse_stats_file-blocks bs lines h e)) (
      store_blocks-info bs no_stats,
      store_blocks-programstatus bs no_stats,
      λ kind k. store_blocks-others kind bs no_stats k,
    )
