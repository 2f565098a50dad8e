-- ===== src/Authz/Tests.antt =====
-- The theorems of packages/authz at small stores, and runs of the methods.

use flametrench_go.Base.{
  ◌≡◌, ◌↔◌, ◌≤◌, ◌+◌, ◌*◌, refl, arith, true, none, some, Option, [], ◌∷◌, List, Text, bytes,
  lookup, insert, ◌==◌, if◌then◌else◌,
}
use flametrench_go.Base.Result.{ok, err}
use flametrench_go.Ids.{Uuids, generate}
use flametrench_go.Authz.Types.{Tuple, Share, VerifiedShare, share_consumed, share_max_ttl_seconds}
use flametrench_go.Authz.Rules.{
  this, computed_userset, tuple_to_userset, Rules, SubjectRef, Frame, denied, granted, evaluate,
}
use flametrench_go.Authz.Rules.Meaning.{Grants, evaluate_sound}
use flametrench_go.Authz.Rules.Decision.{evaluate_complete}
use flametrench_go.Authz.Tuples.{
  CreateTupleInput, CheckInput, natural_key, new_tuple, create_tuple, delete_tuple, check,
  cascade_revoke_subject, key_of,
}
use flametrench_go.Patterns.{is_relation_name, is_type_prefix}
use flametrench_go.Authz.Tuples.Checks.{request}
use flametrench_go.Authz.Tuples.Exact.{IsClean, Reach, start, created_call, Answers, check_exact}
use flametrench_go.Base.Keys.{no_bar}
use flametrench_go.Authz.Tuples
use flametrench_go.Authz.Shares
use flametrench_go.Authz.Shares.Tokens.{single_use_once, create_share_verifies}

-- On a document, an editor is a viewer and a viewer is an editor; a viewer of its folder is one too.
abbrev doc_rules : Rules
doc_rules =
    (
      bytes "doc",
      (
        bytes "viewer",
        this
            ∷ computed_userset (bytes "editor")
            ∷ tuple_to_userset (bytes "in") (bytes "viewer")
            ∷ [],
      )
          ∷ (bytes "editor", this ∷ computed_userset (bytes "viewer") ∷ [])
          ∷ [],
    )
    ∷ []

abbrev viewer : Text → Text → Frame
viewer object_type id = record {
  relation = bytes "viewer";
  object_type = object_type;
  object_id = id;
}

-- The one direct tuple is on the folder.
abbrev on_folder : Frame → Option Text
on_folder f = if f.object_type == bytes "folder" then some (bytes "tup_1") else none

abbrev contents : Text → Text → Text → List SubjectRef
contents object_type id relation =
    if relation == bytes "in"
    then record { subject_type = bytes "folder"; subject_id = bytes "f"; tuple_id = bytes "tup_2" }
      ∷ []
    else []

viewer_allowed :
    evaluate (some doc_rules) on_folder contents 1024 0 (viewer (bytes "doc") (bytes "d"))
    ≡ ok (granted (bytes "tup_1"))
unfolding evaluate lookup ◌==◌
viewer_allowed = refl

evaluate_sound_example :
    Grants
      (some doc_rules)
      on_folder
      contents
      1024
      (bytes "tup_1")
      (viewer (bytes "doc") (bytes "d"))
evaluate_sound_example =
    evaluate_sound (some doc_rules) on_folder contents 1024 0 (viewer (bytes "doc") (bytes "d"))
      (granted (bytes "tup_1")) viewer_allowed refl

abbrev nothing : Frame → Option Text
nothing f = none

no_viewer :
    evaluate (some doc_rules) nothing contents 1024 0 (viewer (bytes "doc") (bytes "d")) ≡ ok denied
unfolding evaluate lookup ◌==◌
no_viewer = refl

evaluate_complete_example : ¬ (
    Grants
      (some doc_rules)
      nothing
      contents
      1024
      (bytes "tup_1")
      (viewer (bytes "doc") (bytes "d")))
evaluate_complete_example =
    evaluate_complete (some doc_rules) nothing contents 1024 0 (viewer (bytes "doc") (bytes "d"))
      denied (bytes "tup_1") no_viewer refl

-- One tuple.
abbrev draw : Uuids
draw = record { new_v7 = some (bytes "0190f2a8-1b3c-7abc-8123-456789abcdef"); parses = λ t. true }

abbrev tup : Text
tup = bytes "tup_0190f2a81b3c7abc8123456789abcdef"

abbrev ask : CreateTupleInput
ask = record {
  subject_type = bytes "usr";
  subject_id = bytes "u";
  relation = bytes "editor";
  object_type = bytes "doc";
  object_id = bytes "d";
  created_by = none;
}

abbrev made : Tuple
made = new_tuple tup ask 5

abbrev one_tuple : Tuples.Store
one_tuple = (create_tuple ask draw 5 Tuples.empty).1

created : (create_tuple ask draw 5 Tuples.empty).0 ≡ ok made
unfolding create_tuple generate is_relation_name is_type_prefix lookup
created = refl

stored : lookup tup one_tuple.tuples ≡ some made
unfolding create_tuple generate lookup is_relation_name is_type_prefix Tuples.put_tuple insert
stored = refl

one_tuple-Reach : Reach one_tuple
unfolding lookup no_bar
one_tuple-Reach = created_call ask draw 5 Tuples.empty (λ id g. refl) refl (start 0 0)

ask-IsClean : IsClean (bytes "usr") (bytes "u") (bytes "editor") (bytes "doc")
unfolding no_bar
ask-IsClean = record { subject_type = refl; subject_id = refl; relation = refl; object_type = refl }

check_exact_example :
    (check (request ask) one_tuple ≡ ok (record { allowed = true; matched_tuple_id = some tup }))
    ↔ ((t : Tuple) × (lookup tup one_tuple.tuples ≡ some t) × Answers t (request ask))
check_exact_example = check_exact one_tuple (request ask) tup one_tuple-Reach ask-IsClean

-- One share, for single use, that lives for a minute; a stand-in for the hash that is the identity.
abbrev plain : Text → Text
plain t = t

abbrev share_input : Shares.CreateShareInput
share_input = record {
  object_type = bytes "doc";
  object_id = bytes "d";
  relation = bytes "viewer";
  created_by = bytes "u";
  expires_in_seconds = 60;
  single_use = true;
}

abbrev shr : Text
shr = bytes "shr_0190f2a81b3c7abc8123456789abcdef"

abbrev token : Text
token = bytes "secret"

abbrev fresh_share : Share
fresh_share = Shares.new_share shr share_input 5

abbrev shared : Shares.Store
shared = (Shares.create_share plain share_input draw (some token) 5 Shares.empty).1

abbrev seen : VerifiedShare
seen = record {
  share_id = shr;
  object_type = bytes "doc";
  object_id = bytes "d";
  relation = bytes "viewer";
}

shared_ok :
    (Shares.create_share plain share_input draw (some token) 5 Shares.empty).0
    ≡ ok (record { share = fresh_share; token = token })
unfolding Shares.create_share generate is_relation_name
shared_ok = refl

shared_hash : lookup token shared.id_by_hash ≡ some shr
unfolding Shares.create_share generate lookup is_relation_name insert
shared_hash = refl

shared_token : lookup shr shared.token_hashes ≡ some token
unfolding Shares.create_share generate lookup is_relation_name insert
shared_token = refl

shared_share : lookup shr shared.shares ≡ some fresh_share
unfolding Shares.create_share generate lookup is_relation_name insert
shared_share = refl

verified : (Shares.verify_share_token plain token 6 6 shared).0 ≡ ok seen
unfolding Shares.create_share generate Shares.verify_share_token lookup is_relation_name insert
    Shares.new_share
verified = refl

single_use_once_example :
    (Shares.verify_share_token plain token 7 7
      (Shares.verify_share_token plain token 6 6 shared).1).0
    ≡ err share_consumed
unfolding Shares.new_share
single_use_once_example =
    single_use_once plain token 6 6 7 7 shared seen shr fresh_share shared_hash shared_share refl
      verified

create_share_verifies_example :
    (5 + 1000000000 ≤ fresh_share.expires_at)
    × (fresh_share.expires_at ≤ 5 + share_max_ttl_seconds * 1000000000)
    × ((Shares.verify_share_token plain token 6 6 shared).0 ≡ ok seen)
unfolding Shares.new_share
create_share_verifies_example =
    create_share_verifies plain share_input draw (some token) 5 6 6 Shares.empty
      (record { share = fresh_share; token = token }) shared_ok (omega arith)
