-- ===== src/Tests/FakeTests.antt =====
-- A fake client that answers like a server on which one Crypt is missing.
use crypt_controller.Base.{
  ℕ, ◌+◌, String, ◌≡◌, refl, sym, ap, ◌∙◌, true, Option, none, some, [], ◌∷◌, ◌==◌, string_eq,
  if◌then◌else◌, arith,
}
use crypt_controller.Base.Outcome.{Error, external, ok}
use crypt_controller.Api.{Crypt}
use crypt_controller.Client.{RestClient, Request}
use crypt_controller.Fake.{
  Object, crypt_object, list_object, Deed, get_deed, list_deed, watch_deed, create_deed,
  update_deed, update_subresource_deed, delete_deed, delete_collection_deed, patch_subresource_deed,
  Reactors,
}
use crypt_controller.Fake.Matter.{
  Matter, boxed, asked_by, asked_for, gives_crypt, deletes, StandsFor,
}
use crypt_controller.Fake.StandIn.{ReadsAlike, WritesAlike, fake_alike}
use crypt_controller.Tests.Fixture.{test_crypt, second_crypt}

abbrev answer_about : Option String → Crypt × Option Error
answer_about none = (test_crypt, none)
answer_about (some name) =
    if name == "missing" then (test_crypt, some (external "not found")) else (second_crypt, none)

abbrev partial_server : RestClient
partial_server = record {
  Watch = Unit {0};
  into_crypt = λ r. answer_about r.name;
  into_list = λ r. (record { items = test_crypt ∷ second_crypt ∷ [] }, none);
  error = λ r. (answer_about r.name).1;
  open_watch = λ r. ok tt;
}

abbrev react : Deed → Option String → Option Object × Option Error
react (list_deed kind opts) name =
    (some (list_object (record { items = test_crypt ∷ second_crypt ∷ [] })), none)
react _ name = boxed crypt_object (answer_about name)

-- The state counts the actions.
abbrev reactors : Reactors
reactors = record {
  State = ℕ;
  Watch = Unit {0};
  invokes = λ a default s. (react a.deed (asked_for a.namespace a.deed).name, s + 1);
  invokes_watch = λ a s. (ok tt, s + 1);
  extract_label = λ opts. none;
}

react_crypt :
    (d : Deed) (name : Option String)
    → gives_crypt d ≡ true
    → react d name ≡ boxed crypt_object (answer_about name)
react_crypt (get_deed n) name e = refl
react_crypt (create_deed c) name e = refl
react_crypt (update_deed c) name e = refl
react_crypt (update_subresource_deed sub c) name e = refl
react_crypt (patch_subresource_deed n pt contents subs) name e = refl
react_crypt (list_deed kind opts) name e = absurd (ground (arith, e))
react_crypt (watch_deed opts) name e = refl
react_crypt (delete_deed n) name e = refl
react_crypt (delete_collection_deed opts) name e = refl

boxed-error : (c : Crypt × Option Error) → (boxed crypt_object c).1 ≡ c.1
boxed-error (c, none) = refl
boxed-error (c, some e) = refl

react_error :
    (d : Deed) (name : Option String) → deletes d ≡ true → (react d name).1 ≡ (answer_about name).1
react_error (delete_deed n) name e = boxed-error (answer_about name)
react_error (delete_collection_deed opts) name e = boxed-error (answer_about name)
react_error (get_deed n) name e = boxed-error (answer_about name)
react_error (create_deed c) name e = boxed-error (answer_about name)
react_error (update_deed c) name e = boxed-error (answer_about name)
react_error (update_subresource_deed sub c) name e = boxed-error (answer_about name)
react_error (patch_subresource_deed n pt contents subs) name e = boxed-error (answer_about name)
react_error (watch_deed opts) name e = boxed-error (answer_about name)
react_error (list_deed kind opts) name e = absurd (ground (arith, e))

same_name :
    (r : Request) (ns : String) (d : Deed)
    → asked_by r ≡ asked_for ns d
    → (asked_for ns d).name ≡ r.name
same_name r ns d e = sym (ap (λ (m : Matter). m.name) e)

stands : StandsFor reactors partial_server 0
stands = record {
  crypts_alike = λ r ns d default kind here same.
      react_crypt d _ kind ∙ ap (λ n. boxed crypt_object (answer_about n)) (same_name r ns d same);
  lists_alike = λ r ns opts default here same. refl;
  errors_alike = λ r ns d default kind here same.
      react_error d _ kind ∙ ap (λ n. (answer_about n).1) (same_name r ns d same);
}

fake_alike_example :
    ReadsAlike reactors partial_server "default" 0 × WritesAlike reactors partial_server "default" 0
fake_alike_example = fake_alike reactors partial_server "default" 0 stands
