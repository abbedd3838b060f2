-- ===== src/AppState.antt =====
-- The application's own state in a handover (packages/uns-core/src/runtime/application-handover-state.ts): plain
-- JSON, bounded in nodes, depth and bytes. The number of bytes of the text that `JSON.stringify` writes is a
-- parameter. A value is a tree: a sparse array, or one with further keys, is not among them.
pub mod Measure
pub mod Accepts
mod Tests
use uns_kit.Kit.{
  ℕ, suc, ◌*◌, Bool, true, false, ◌||◌, ◌===◌, String, Result, err, ok, ◌>>=◌, ◌>>◌, throw_if, ltb,
}

-- An `unknown` value, as `visit` tells its forms apart. `other` is undefined, a function, a symbol, a big
-- integer or an object with another prototype; a number has its text and whether it is finite.
mutual
  pub data Json : Type 0 where
    null : Json
    text : String → Json
    flag : Bool → Json
    number : (finite : Bool) → (digits : String) → Json
    other : Json
    array_of : Elements → Json
    object_of : Members → Json

  pub data Elements : Type 0 where
    no_element : Elements
    element : Json → Elements → Elements

  pub data Members : Type 0 where
    no_member : Members
    member : (key : String) → Json → Members → Members

abbrev pub is_unsafe_key : String → Bool
is_unsafe_key key = key === "__proto__" || key === "constructor" || key === "prototype"

-- `++nodes > 50000 || depth > 32`
abbrev pub check_bounds : ℕ → ℕ → Result (Unit {0})
check_bounds nodes depth =
    throw_if (ltb 50000 (suc nodes) || ltb 32 depth)
      "Application handover state exceeds structural bounds"

abbrev pub not_plain : Result ℕ
not_plain = err "Application handover state must be plain JSON"

-- `visit`, from the number of nodes before it to the number after it. The keys of an array are its indices.
unfoldable mutual
  pub visit : Json → ℕ → ℕ → Result ℕ
  visit null nodes depth = check_bounds nodes depth >> ok (suc nodes)
  visit (text s) nodes depth = check_bounds nodes depth >> ok (suc nodes)
  visit (flag b) nodes depth = check_bounds nodes depth >> ok (suc nodes)
  visit (number true digits) nodes depth = check_bounds nodes depth >> ok (suc nodes)
  visit (number false digits) nodes depth = check_bounds nodes depth >> not_plain
  visit other nodes depth = check_bounds nodes depth >> not_plain
  visit (array_of xs) nodes depth =
      check_bounds nodes depth >> visit_elements xs (suc nodes) (suc depth)
  visit (object_of fs) nodes depth =
      check_bounds nodes depth >> visit_members fs (suc nodes) (suc depth)

  pub visit_elements : Elements → ℕ → ℕ → Result ℕ
  visit_elements no_element nodes depth = ok nodes
  visit_elements (element x xs) nodes depth =
      visit x nodes depth >>= (λ after. visit_elements xs after depth)

  pub visit_members : Members → ℕ → ℕ → Result ℕ
  visit_members no_member nodes depth = ok nodes
  visit_members (member key x fs) nodes depth =
      throw_if (is_unsafe_key key) "Unsafe application state key"
      >> (visit x nodes depth >>= (λ after. visit_members fs after depth))

-- What passes the visit is plain, so that the value its text is parsed to is the same.
unfoldable pub clone_application_state : (Json → ℕ) → Json → Result Json
clone_application_state byte_length value = visit value 0 0 >>= (λ nodes.
    throw_if (ltb (768 * 1024) (byte_length value)) "Application handover state exceeds byte bound"
    >> ok value)
