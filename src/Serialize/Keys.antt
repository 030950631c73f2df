-- ===== src/Serialize/Keys.antt =====
-- The keys of the dicts that src/utils/mod.rs writes, and the map that it builds of them.
use fastrapi.Prelude.{
  ◌≡◌, refl, ◌∙◌, sym, false, [], ◌∷◌, ◌++◌, append-nil, append_assoc, All, All-append, Assoc,
  insert,
}
use fastrapi.Text.{Str, str_eq}
use fastrapi.Text.Laws.{str_key}
use fastrapi.Routing.Json.{Json}
use fastrapi.Serialize.Objects.{PyObject, Entries, JsonLibraries, end, entry}
use fastrapi.Serialize.Writer.{json_key_for}
use fastrapi.Serialize.Value.{py_any_to_json, py_dict_to_json}

insert-append :
    (key : Str) (value : Json) (known : Assoc Str Json)
    → All (λ (e : Str × Json). str_eq e.0 key ≡ false) known
    → insert key value known ≡ known ++ (key, value) ∷ []
unfolding insert
insert-append key value [] h = refl
insert-append key value ((k, v) ∷ known) (p, h) = rw (p, insert-append key value known h) refl

module _ (libraries : JsonLibraries) where
  abbrev pub IsFresh : Str → Entries → Type 0
  IsFresh k end = Unit
  IsFresh k (entry key value entries) =
      (str_eq k (json_key_for libraries key) ≡ false) × IsFresh k entries

  abbrev pub AreDistinct : Entries → Type 0
  AreDistinct end = Unit
  AreDistinct (entry key value entries) =
      IsFresh (json_key_for libraries key) entries × AreDistinct entries

  abbrev pub pairs_of : Entries → Assoc Str Json
  pairs_of end = []
  pairs_of (entry key value entries) =
      (json_key_for libraries key, py_any_to_json libraries value) ∷ pairs_of entries

  abbrev AreFresh : Entries → Assoc Str Json → Type 0
  AreFresh entries known = All (λ (e : Str × Json). IsFresh e.0 entries) known

  fresh_here :
      (key value : PyObject) (entries : Entries) (known : Assoc Str Json)
      → AreFresh (entry key value entries) known
      → All (λ (e : Str × Json). str_eq e.0 (json_key_for libraries key) ≡ false) known
  fresh_here key value entries [] h = tt
  fresh_here key value entries (e ∷ known) (p, h) = (p.0, fresh_here key value entries known h)

  fresh_later :
      (key value : PyObject) (entries : Entries) (known : Assoc Str Json)
      → AreFresh (entry key value entries) known
      → AreFresh entries known
  fresh_later key value entries [] h = tt
  fresh_later key value entries (e ∷ known) (p, h) = (p.1, fresh_later key value entries known h)

  py_dict_to_json-append :
      (entries : Entries) (known : Assoc Str Json)
      → AreDistinct entries
      → AreFresh entries known
      → py_dict_to_json libraries entries known ≡ known ++ pairs_of entries
  unfolding py_dict_to_json
  py_dict_to_json-append end known d h = sym (append-nil known)
  py_dict_to_json-append (entry key value entries) known d h =
      let k = json_key_for libraries key in
      let v = py_any_to_json libraries value in
      rw (insert-append k v known (fresh_here key value entries known h)) (
        py_dict_to_json-append entries (known ++ (k, v) ∷ []) d.1 (
          All-append (λ (e : Str × Json). IsFresh e.0 entries) known ((k, v) ∷ [])
            (fresh_later key value entries known h) (d.0, tt))
        ∙ append_assoc known ((k, v) ∷ []) (pairs_of entries))

  -- Where no two keys are one, the map holds each pair in the order of the dict.
  pub py_dict_to_json-pairs :
      (entries : Entries)
      → AreDistinct entries
      → py_dict_to_json libraries entries [] ≡ pairs_of entries
  py_dict_to_json-pairs entries d = py_dict_to_json-append entries [] d tt
