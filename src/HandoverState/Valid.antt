-- ===== src/HandoverState/Valid.antt =====
-- What a parsed handover state is: the state that was given, within its bounds, with no name twice.
use uns_kit.Kit.{
  ltb, ◌*◌, bind-ok, throw_if-ok, ℕ, ◌≤◌, ◌≡◌, sym, ◌∙◌, ap, Bool, true, false, not, Option, none,
  some, List, [], ◌∷◌, map, String, length, all, All, Bool-cases, inl, inr, arith, ok, ok_injective,
  and_true,
}
use uns_kit.AppState.{Json, clone_application_state}
use uns_kit.AppState.Measure.{IsPlain}
use uns_kit.AppState.Accepts.{clone_application_state_iff}
use uns_kit.HandoverState.{ValueEntry, ProxyState, ApplicationPart, HandoverState, Codec}
use uns_kit.HandoverState.Schema.{
  contains, set_size, is_distinct, is_sequence, is_cursor, is_proxy_state, is_handover_state,
  clone_application, parse_handover_state, handover_state_digest,
}

abbrev pub NoRepeat : List String → Type 0
NoRepeat [] = Unit
NoRepeat (k ∷ ks) = (contains k ks ≡ false) × NoRepeat ks

set_size-le : (ks : List String) → set_size ks ≤ length ks
unfolding set_size
set_size-le [] = omega arith
set_size-le (k ∷ ks) = ground (arith, set_size-le ks)

set_size-NoRepeat : (ks : List String) → set_size ks ≡ length ks → NoRepeat ks
unfolding set_size
set_size-NoRepeat [] h = tt
set_size-NoRepeat (k ∷ ks) h = elim (Bool-cases (contains k ks)) [
  | inl e ↦ absurd (ground (arith, set_size-le ks))
  | inr e ↦ (e, set_size-NoRepeat ks (ground (arith, set_size-le ks)))
]

is_distinct-NoRepeat : (ks : List String) → is_distinct ks ≡ true → NoRepeat ks
is_distinct-NoRepeat ks h = set_size-NoRepeat ks (ground arith)

all-All {ℓ κ} :
    {A : Type ℓ} (P : A → Type κ) (p : A → Bool)
    → ((a : A) → p a ≡ true → P a)
    → (xs : List A) → all p xs ≡ true
    → All P xs
all-All P p f [] h = tt
all-All P p f (x ∷ xs) h = let (a, b) = and_true (p x) (all p xs) h in (f x a, all-All P p f xs b)

-- At most 10000 values and 10000 sequences, no topic and no sequence twice, sequence numbers that are safe integers,
-- and a cursor of at most 100 messages.
abbrev pub IsSafe : String × ℕ → Type 0
IsSafe entry = entry.1 ≤ 9007199254740991

pub record IsProxyState (p : ProxyState) : Type 0 where
  pub topics : NoRepeat (map (λ (v : ValueEntry). v.topic) p.values)
  pub sequences : NoRepeat (map (λ (v : String × ℕ). v.0) p.sequences)
  pub cursor : p.cursor.batch_size ≤ 100
  pub few_values : length p.values ≤ 10000
  pub few_sequences : length p.sequences ≤ 10000
  pub safe : All IsSafe p.sequences

abbrev pub HasPlainData : Option ApplicationPart → Type 0
HasPlainData none = Unit
HasPlainData (some a) = IsPlain a.data_value

pub record IsHandoverState (s : HandoverState) : Type 0 where
  pub first_protocol : s.protocol ≡ 1
  pub few : length s.proxies ≤ 64
  pub names : NoRepeat (map (λ (p : ProxyState). p.instance_name) s.proxies)
  pub proxies : All IsProxyState s.proxies
  pub plain : HasPlainData s.application

is_sequence-IsSafe : (entry : String × ℕ) → is_sequence entry ≡ true → IsSafe entry
is_sequence-IsSafe entry h = ground arith

is_proxy_state-IsProxyState :
    (codec : Codec) (p : ProxyState) → is_proxy_state codec p ≡ true → IsProxyState p
unfolding is_proxy_state is_cursor
is_proxy_state-IsProxyState codec p h = record {
  topics = is_distinct-NoRepeat (map (λ (v : ValueEntry). v.topic) p.values) (ground arith);
  sequences = is_distinct-NoRepeat (map (λ (v : String × ℕ). v.0) p.sequences) (ground arith);
  cursor = ground arith;
  few_values = ground arith;
  few_sequences = ground arith;
  safe = all-All IsSafe is_sequence is_sequence-IsSafe p.sequences (ground arith);
}

clone_application-same :
    (codec : Codec) (a r : Option ApplicationPart)
    → clone_application codec a ≡ ok r
    → (r ≡ a) × HasPlainData a
unfolding clone_application
clone_application-same codec none r h = (sym (ok_injective h), tt)
clone_application-same codec (some a) r h =
    let (copy, e, f) = bind-ok (clone_application_state codec.json_bytes a.data_value) _ r h in
    let (same, small, shallow, plain, short) =
      (clone_application_state_iff codec.json_bytes a.data_value copy).0 e in
    let g : some (record a { data_value = copy }) ≡ r = ok_injective f in
    (sym g ∙ ap (λ (c : Json). some (record a { data_value = c })) same, plain)

not-false : (b : Bool) → not b ≡ false → b ≡ true
not-false b h = ground arith

is_handover_state-parts :
    (codec : Codec) (s : HandoverState)
    → is_handover_state codec s ≡ true
    → (s.protocol ≡ 1)
      × (all (is_proxy_state codec) s.proxies ≡ true)
      × (length s.proxies ≤ 64)
      × (is_distinct (map (λ (p : ProxyState). p.instance_name) s.proxies) ≡ true)
unfolding is_handover_state
is_handover_state-parts codec s h = (ground arith, ground arith, ground arith, ground arith)

-- A parsed state is the state that was given, in at most 1048576 bytes; it follows the first protocol, has at most 64
-- proxies, none twice, in each of them at most 10000 values and 10000 sequences with no topic or sequence twice, safe
-- sequence numbers, cursors of at most 100 messages, and plain application data; its digest is the hash of the state.
pub parse_handover_state-IsHandoverState :
    (codec : Codec) (input parsed : HandoverState)
    → parse_handover_state codec input ≡ ok parsed
    → (parsed ≡ input)
      × (codec.state_bytes input ≤ 1048576)
      × IsHandoverState input
      × (handover_state_digest codec input ≡ ok (codec.hash input))
unfolding parse_handover_state is_handover_state handover_state_digest
parse_handover_state-IsHandoverState codec input parsed h =
    let (a, h2) = throw_if-ok (ltb (1024 * 1024) (codec.state_bytes input)) _ _ parsed h in
    let (b, h3) = throw_if-ok (not (is_handover_state codec input)) _ _ parsed h2 in
    let good : is_handover_state codec input ≡ true = not-false (is_handover_state codec input) b in
    let (one, each, few, distinct) = is_handover_state-parts codec input good in
    let (copy, e, f) = bind-ok (clone_application codec input.application) _ parsed h3 in
    let (same, plain) = clone_application-same codec input.application copy e in
    let k : record input { application = copy } ≡ parsed = ok_injective f in
    let whole : parsed ≡ input =
      sym k ∙ ap (λ (c : Option ApplicationPart). record input { application = c }) same in
    (
      whole,
      ground (arith, a),
      record {
        first_protocol = one;
        few = few;
        names =
            is_distinct-NoRepeat (map (λ (p : ProxyState). p.instance_name) input.proxies) distinct;
        proxies =
            all-All IsProxyState (is_proxy_state codec) (is_proxy_state-IsProxyState codec)
              input.proxies each;
        plain = plain;
      },
      rw h (ap (λ (s : HandoverState). ok (codec.hash s)) whole),
    )
