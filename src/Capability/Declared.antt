-- ===== src/Capability/Declared.antt =====
-- What a declaration of bywaf/plugin/capabilities.py covers, and what a commandlet's metadata
-- declares by itself.
use bywaf.Prelude.{
  ◌-◌, true, ◌||◌, List, [], ◌∷◌, ◌++◌, ◌≡◌, sym, ◌∙◌, ap, arith, map, init, length, length-append,
  drop-append, append_assoc, Text, codes, text_eq_iff, text_eq_refl, mem_text, starts_with,
  starts_with-append, mem_text-sorted_set, mem_text-append, init-snoc,
}
use bywaf.Capability.{
  ends_with, declares, capability_declared, CommandSpec, db_read, db_write, implied_capabilities,
}

ends_with-append : (s suffix : Text) → ends_with suffix (s ++ suffix) ≡ true
unfolding ends_with
ends_with-append s suffix =
    let e : length (s ++ suffix) - length suffix ≡ length s = rw length-append (omega arith) in
    rw (e, drop-append) (text_eq_refl suffix)

-- A wildcard declaration `family:*` covers exactly the capabilities that begin with `family:`.
pub capability_declared-wildcard :
    (capability family : Text)
    → capability_declared capability ((family ++ codes ":*") ∷ [])
      ≡ starts_with (family ++ codes ":") capability
unfolding capability_declared declares
capability_declared-wildcard capability family =
    let e1 : ends_with (codes ":*") (family ++ codes ":*") ≡ true =
      ends_with-append family (codes ":*") in
    let e2 : init (family ++ codes ":*") ≡ family ++ codes ":" =
      ap init (sym (append_assoc family (codes ":") (codes "*")))
      ∙ init-snoc (family ++ codes ":") b'*' in
    let e3 : starts_with (family ++ codes ":") (family ++ codes ":*") ≡ true =
      ap (starts_with (family ++ codes ":")) (sym (append_assoc family (codes ":") (codes "*")))
      ∙ starts_with-append (family ++ codes ":") (codes "*") in
    ground (arith, e1, e2, e3, text_eq_iff capability (family ++ codes ":*"))

declared-of-mem :
    (capability : Text) (ds : List Text)
    → mem_text capability ds ≡ true
    → capability_declared capability ds ≡ true
unfolding capability_declared declares mem_text
declared-of-mem capability [] h = cc
declared-of-mem capability (d ∷ ds) h = ground (arith, declared-of-mem capability ds)

mem_text-map :
    (prefix k : Text) (l : List Text)
    → mem_text k l ≡ true
    → mem_text (prefix ++ k) (map (λ t. prefix ++ t) l) ≡ true
unfolding mem_text
mem_text-map prefix k [] h = cc
mem_text-map prefix k (x ∷ l) h =
    ground
      (arith, mem_text-map prefix k l, text_eq_iff k x, text_eq_iff (prefix ++ k) (prefix ++ x))

-- A commandlet's implied capabilities declare every capability that it names, the reading of every
-- topic that it consumes, and the writing of every topic that it emits.
pub implied_capabilities-declared :
    (spec : CommandSpec) (capability topic out : Text)
    → mem_text capability spec.capabilities ≡ true
    → mem_text topic spec.consumes ≡ true
    → mem_text out spec.emits ≡ true
    → (capability_declared capability (implied_capabilities spec) ≡ true)
      × (capability_declared (db_read topic) (implied_capabilities spec) ≡ true)
      × (capability_declared (db_write out) (implied_capabilities spec) ≡ true)
implied_capabilities-declared spec capability topic out h k m = (
  declared-of-mem capability _ (implied capability (rw h)),
  declared-of-mem (db_read topic) _ (
      implied (db_read topic)
        (rw (mem_text-map (codes "db.read:") topic spec.consumes k) (ground arith))),
  declared-of-mem (db_write out) _ (
      implied (db_write out)
        (rw (mem_text-map (codes "db.write:") out spec.emits m) (ground arith))),
)
  where
    implied :
        (c : Text)
        → (mem_text c spec.capabilities
            || (mem_text c (map db_read spec.consumes) || mem_text c (map db_write spec.emits)))
          ≡ true
        → mem_text c (implied_capabilities spec) ≡ true
    implied c e =
        unfold implied_capabilities in rw (mem_text-sorted_set, mem_text-append, mem_text-append) e
