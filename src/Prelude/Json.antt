-- ===== src/Prelude/Json.antt =====
-- A value of the language as JSON carries it: `unknown` in the source. Numbers are the language's
-- floats, of which the model asks nothing: their type is a parameter.
use mathlib.Core.Bool.{Bool}
use mathlib.Core.List.{List, [], ◌∷◌}
use senior_io_t_platform_arc.Prelude.Texts.{Text}

mutual
  pub data Json (N : Type 0) : Type 0 where
    null : Json N
    bool : Bool → Json N
    num : N → Json N
    str : Text → Json N
    arr : Elems N → Json N
    obj : Props N → Json N

  pub data Elems (N : Type 0) : Type 0 where
    nil : Elems N
    cons : Json N → Elems N → Elems N

  pub data Props (N : Type 0) : Type 0 where
    end : Props N
    prop : Text → Json N → Props N → Props N

-- `Object.entries`.
abbrev pub entries : {N : Type 0} → Props N → List (Text × Json N)
entries end = []
entries (prop k v ps) = (k, v) ∷ entries ps
