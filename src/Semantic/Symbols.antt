-- ===== src/Semantic/Symbols.antt =====
-- The symbol table: include/ocelotl/semantic/Symbol.hpp, include/ocelotl/semantic/SymbolTable.hpp
-- and src/semantic/SymbolTable.cpp.
use ocelotl_tensor.Base.{
  ℕ, suc, ◌≡◌, refl, Bool, not, Option, none, some, Text, list_eq, if◌then◌else◌, length, arith,
  ◌∷◌, [],
}
use ocelotl_tensor.Base.Maps.{Map, find, emplace, is_some, or_else, find-emplace}
use ocelotl_tensor.Frontend.Token.{SourceLocation}
use ocelotl_tensor.Frontend.Ast.{TensorType}

pub record Symbol : Type 0 where
  pub name : Text
  pub type : TensorType
  pub location : SourceLocation

pub record SymbolTable : Type 0 where
  pub symbols : Map Symbol

abbrev pub empty_table : SymbolTable
empty_table = record { symbols = [] }

-- `lookup`; a null pointer is `none`.
unfoldable pub lookup : SymbolTable → Text → Option Symbol
unfolding find
lookup t name = find name t.symbols

unfoldable pub contains : SymbolTable → Text → Bool
unfolding lookup
contains t name = is_some (lookup t name)

-- `declare`: the table, and whether the symbol was new.
unfoldable pub declare : SymbolTable → Symbol → SymbolTable × Bool
unfolding contains emplace
declare t s = (record { symbols = emplace s.name s t.symbols }, not (contains t s.name))

unfoldable pub size : SymbolTable → ℕ
size t = length t.symbols

abbrev pub entries : SymbolTable → Map Symbol
entries t = t.symbols

-- After `declare` a name means what it meant, or the new symbol if it is that symbol's name and
-- meant nothing.
pub lookup-declare :
    (t : SymbolTable) (s : Symbol) (name : Text)
    → lookup (declare t s).0 name
      ≡ or_else (lookup t name) (if list_eq s.name name then some s else none)
unfolding lookup declare
lookup-declare t s name = find-emplace name s.name s t.symbols

length-emplace :
    {V : Type 0} (k : Text) (v : V) (m : Map V)
    → length (emplace k v m) ≡ (if not (is_some (find k m)) then suc (length m) else length m)
unfolding emplace find
length-emplace k v [] = refl
length-emplace k v ((j, w) ∷ m) = ground (arith, length-emplace k v m)

-- `declare` says whether the name was free, and adds an entry exactly if it was.
pub size-declare :
    (t : SymbolTable) (s : Symbol)
    → ((declare t s).1 ≡ not (contains t s.name))
      × (size (declare t s).0 ≡ (if (declare t s).1 then suc (size t) else size t))
unfolding size declare contains lookup
size-declare t s = (refl, length-emplace s.name s t.symbols)
