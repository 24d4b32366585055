-- ===== src/Operation/Agent/Secrets.antt =====
-- The secrets of two maps, merged.
use ivrm_dashboard.Prelude.{
  false, [], ◌∷◌, Option, none, some, String, str_eq, eq_iff, ◌≡◌, refl, sym, ◌∙◌, arith,
}
use ivrm_dashboard.Prelude.StringMap.{get, set, get-set}
use ivrm_dashboard.Operation.Json.{Json}
use ivrm_dashboard.Operation.Agent.{
  SecretMap, AgentResult, ok, add_unless, add_all, parse_agent_secret_map, parse_agent_secret_maps,
}

abbrev pub first_of : Option String → Option String → Option String
first_of none b = b
first_of (some a) b = some a

ok-injective : (a b : SecretMap) → ok a ≡ ok b → a ≡ b
ok-injective a b h = ground (arith)

set-first :
    (id j secret : String) (result rest : SecretMap)
    → get j result ≡ none
    → first_of (get id (set j secret result)) (get id rest)
      ≡ first_of (get id result) (get id ((j, secret) ∷ rest))
set-first id j secret result rest h =
    let e = get-set j id secret result in let i = eq_iff j id in ground (arith)

add_unless-ok :
    (found : Option String) (others : AgentResult SecretMap) (merged : SecretMap)
    → add_unless found others ≡ ok merged
    → (found ≡ none) × (others ≡ ok merged)
add_unless-ok none others merged h = (refl, h)
add_unless-ok (some _) others merged h = ground (arith)

add_all-get :
    (result extra merged : SecretMap) (id : String)
    → add_all result extra ≡ ok merged
    → get id merged ≡ first_of (get id result) (get id extra)
unfolding add_all
add_all-get result [] merged id h = let e = ok-injective result merged h in ground (arith)
add_all-get result ((j, secret) ∷ rest) merged id h =
    let (absent, others) =
      add_unless-ok (get j result) (add_all (set j secret result) rest) merged h in
    add_all-get (set j secret result) rest merged id others
    ∙ set-first id j secret result rest absent

-- Where the secrets of the agents come from two texts, the second not empty, and each text and the two
-- together are accepted, the secret of an agent is that of the first text if it has one there, and else
-- that of the second: no secret of the first text is replaced.
pub parse_agent_secret_maps-get :
    (parse_json : String → Option Json) (base additional : String) (first second merged : SecretMap)
    (id : String)
    → str_eq additional "" ≡ false
    → parse_agent_secret_map parse_json (some base) ≡ ok first
    → parse_agent_secret_map parse_json (some additional) ≡ ok second
    → parse_agent_secret_maps parse_json (some base) (some additional) ≡ ok merged
    → get id merged ≡ first_of (get id first) (get id second)
unfolding parse_agent_secret_maps
parse_agent_secret_maps-get parse_json base additional first second merged id n p q h =
    let e : parse_agent_secret_maps parse_json (some base) (some additional)
        ≡ add_all first second =
      rw p (rw n (rw q refl)) in
    add_all-get first second merged id (sym e ∙ h)
