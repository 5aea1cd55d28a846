-- ===== src/Chat/Status.antt =====
-- examples/ChatServer.cpp: GenerateStatus.
use dowow_network.Prelude.{
  ℕ, zero, suc, ◌+◌, ◌*◌, ◌%◌, ◌<◌, ◌≡◌, refl, ap, some, List, [], ◌∷◌, All, length, arith, false,
  done,
}
use dowow_network.Prelude.Bytes.{u32_mod, bytes_eq}
use dowow_network.Prelude.Text.{codes}
use dowow_network.Value.Data.{Value, Values, nil, cons, arr, v32u}
use dowow_network.Value.ValueArr
use dowow_network.Value.ValueArr.{count, append, push_back, new_loop}
use dowow_network.Value.Copy.{without_raw, copy-without_raw}
use dowow_network.Value.Wire
use dowow_network.Datum
use dowow_network.Request
use dowow_network.Request.{Request}
use dowow_network.Request.Templates.{emplace}
use dowow_network.Chat.{Participant, get_participant_id, push_names, generate_status}
use dowow_network.Chat.Messages.{
  IsText, text_value, text_value-IsValid, init-text, emplace_text, emplace_new,
}

-- The names behind the elements that are there.
unfoldable pub with_names : Values → List Participant → Values
unfolding push_back
with_names them [] = them
with_names them (p ∷ ps) = with_names (push_back them (text_value p.username)) ps

push_names_lem :
    (them : Values) (ps : List Participant)
    → All (λ (p : Participant). IsText p.username) ps
    → push_names them ps ≡ done (with_names them ps)
unfolding push_names with_names ValueArr.push without_raw
push_names_lem them [] h = refl
push_names_lem them (p ∷ ps) h =
    rw
      (
        init-text p.username h.0,
        copy-without_raw (text_value p.username) (text_value-IsValid p.username h.0),
      )
      (push_names_lem (push_back them (text_value p.username)) ps h.1)

count-push_back : (them : Values) (v : Value) → count (push_back them v) ≡ suc (count them)
unfolding push_back append count
count-push_back nil v = refl
count-push_back (cons w them) v = ap suc (count-push_back them v)

count-with_names :
    (them : Values) (ps : List Participant) → count (with_names them ps) ≡ count them + length ps
unfolding with_names
count-with_names them [] = omega arith
count-with_names them (p ∷ ps) = omega (
  arith,
  count-with_names (push_back them (text_value p.username)) ps,
  count-push_back them (text_value p.username),
)

count-new_loop : (n : ℕ) → count (new_loop n) ≡ n
unfolding new_loop count
count-new_loop zero = refl
count-new_loop (suc n) = ap suc (count-new_loop n)

abbrev status_of : Participant → ℕ → Values → Request
status_of issuer n them = record {
  name = codes "status";
  id = 0;
  arguments =
      record { name = codes "username"; value = text_value issuer.username }
      ∷ record { name = codes "amount"; value = v32u n }
      ∷ record { name = codes "them"; value = arr them }
      ∷ [];
}

-- The request before its last argument.
abbrev half_status : Participant → ℕ → Request
half_status issuer n = record {
  name = codes "status";
  id = 0;
  arguments =
      record { name = codes "username"; value = text_value issuer.username }
      ∷ record { name = codes "amount"; value = v32u n }
      ∷ [];
}

set_them :
    (issuer : Participant) (n : ℕ) (them : Values)
    → Request.set (half_status issuer n) (codes "them") (some (arr them)) false
      ≡ done (status_of issuer n them)
unfolding Request.set Request.set_arguments Request.find bytes_eq Datum.set_value Datum.set_name
set_them issuer n them = refl

amount_lem :
    (issuer : Participant) (n : ℕ)
    → n < u32_mod
    → emplace
        (record {
          name = codes "status";
          id = 0;
          arguments = record { name = codes "username"; value = text_value issuer.username } ∷ [];
        })
        (codes "amount")
        (v32u n)
      ≡ done (half_status issuer n)
unfolding Wire.IsValid without_raw Request.find bytes_eq
amount_lem issuer n h =
    emplace_new
      (record {
        name = codes "status";
        id = 0;
        arguments = record { name = codes "username"; value = text_value issuer.username } ∷ [];
      })
      (codes "amount") (v32u n) (omega (arith, h)) refl

-- For a participant of the connection, where each name fits a value and the participants are less than
-- 2 ^ 32: the status is made, with the participant's name and the amount of participants, and its list
-- of names has twice as many elements: `New` makes one for each participant, and `Push` adds the names
-- behind these.
pub generate_status-twice :
    (ps : List Participant) (id : ℕ) (issuer : Participant)
    → get_participant_id ps id ≡ some issuer
    → All (λ (p : Participant). IsText p.username) ps
    → IsText issuer.username
    → length ps < u32_mod
    → (r : Request) × (them : Values) × (generate_status ps id ≡ done r)
      × (Request.get r (codes "username") ≡ some (text_value issuer.username))
      × (Request.get r (codes "amount") ≡ some (v32u (length ps)))
      × (Request.get r (codes "them") ≡ some (arr them))
      × (count them ≡ 2 * length ps)
unfolding generate_status Request.init Request.get Request.find bytes_eq ValueArr.new
generate_status-twice ps id issuer found names h few =
    let small : length ps % u32_mod ≡ length ps = omega arith in
    let named =
      emplace_text (Request.init (codes "status")) (codes "username") issuer.username h refl in
    let them = with_names (new_loop (length ps)) ps in
    (
      status_of issuer (length ps) them,
      them,
      rw
          (
            generate_status,
            found,
            named,
            small,
            amount_lem issuer (length ps) few,
            push_names_lem (new_loop (length ps)) ps names,
          )
          (set_them issuer (length ps) them),
      refl,
      refl,
      refl,
      omega (arith, count-with_names (new_loop (length ps)) ps, count-new_loop (length ps)),
    )
