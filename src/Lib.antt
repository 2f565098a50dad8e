-- ===== src/Lib.antt =====
-- Flametrench for Go: identifiers, tenancy, authorization, identity, feature flags, file
-- metadata, the audit log and notifications. A model of package ids and of the in-memory stores of
-- the packages tenancy, authz, identity, flags, file-metadata, audit and notify, with their theorems.
-- Paths are those of the repository.
--
-- Parts, and the files that model them:
--   Base       texts, finite maps, results, and the actions that methods are. Base/Maps holds the
--              laws of the map, Base/Strings those of the comparison of texts, Base/Keys those of the
--              separator of composite keys.
--   Ids        packages/ids/id.go: Encode, Decode, DecodeAny, IsValid, IsValidShape, TypeOf, Generate
--              under their names in lower case (encode, decode, decode_any, ...).
--   Patterns   packages/authz/patterns.go.
--   Paging     the insertion sort and the cursor page that each List method spells out, as one
--              generic definition (sort_slice, paginate); Order and Walk are about the two.
--   Tenancy    packages/tenancy/inmem.go: Types and Store hold the state of InMemoryTenancyStore;
--              Orgs, Members, Invitations and Lists its methods, one function for each (CreateOrg is
--              create_org, transitionMembership is transition_membership, ...). Owners and
--              Transfers are about the sole-owner rule, Index about activeMemByOrgUsr, Machine
--              joins them over all sequences of calls, Lifecycle is about final states, Guards,
--              Cascade and Revocation about single calls, Faults about calls that go wrong.
--   Authz      packages/authz: Rules is rewrite_rules.go (Evaluate), Tuples is InMemoryTupleStore
--              and Shares is InMemoryShareStore of inmem.go. Tuples/Exact is about Check without rules,
--              over the stores that calls make.
--   Identity   packages/identity: Types and Store hold the state of InMemoryIdentityStore (inmem.go);
--              Users, Sessions, Credentials, Factors, Mfa and Pats its methods. Sessions/Tokens is
--              about the tokens of sessions, Signin about suspended users, Recovery about recovery
--              codes, Pats/Verification about personal access tokens, Faults about calls that go
--              wrong. Hashing is hashing.go, with Base64 for its encoding and Phc for the round trip;
--              Totp and RecoveryCodes are the two halves of mfa.go.
--   Flags      packages/flags: InMemoryFlagsStore and AssignBucket. Index is about its two maps, View
--              about the abstract map that they implement, Evaluation about Evaluate.
--   Files      packages/file-metadata: InMemoryFileMetadataStore. Facts is about single calls, History
--              about all sequences of calls, Faults about updates that leave what they should not.
--   Audit      packages/audit: InMemoryAuditStore. Log is about the shape of an event, and about what
--              later calls and the writes of callers to shared memory leave of it. Pointers and maps
--              are addresses, and the memory is part of the state.
--   Notify     packages/notify/inmem.go: InMemoryNotificationStore; Privacy is about what a user learns
--              of another's notifications and about the count, Lifecycle about dismissal.
-- The stores mint their ids by generate of Ids; the identity store calls the functions of Hashing, Totp
-- and RecoveryCodes through the records Hashing and Verifiers, which argon2id_hashing and verifiers
-- fill; Tuples calls evaluate of Rules with its own lookups as the callbacks; all listings sort by
-- Paging.
--
-- How the code is modelled:
--   * A method is an action on the store's record. Each method reads and writes the store under
--     its lock, so one call is one step; a call that fails keeps the writes that it made
--     before. Check of the tuple store takes the lock for each lookup; the model reads one state
--     throughout. ConfirmWebAuthnFactor and verifyWebAuthnProof give up the lock while they verify an
--     assertion: begin_confirm and finish_confirm, begin_webauthn and finish_webauthn are the two
--     steps, between which others may come; confirm_webauthn_factor and verify_webauthn_proof are the
--     runs with none between. VerifyPassword, verifyTotpProof and VerifyPatToken give it up during a
--     hash too; they are modelled with nothing in between.
--   * A text is its list of bytes. A Go map is an association list read by key; a loop over a map
--     visits its keys in the list's order. The theorems hold for every list.
--   * A time is a number of nanoseconds since a fixed instant, such as time.Time's zero, that lies at
--     least 2 ^ 63 nanoseconds before any reading of a clock; a clock reading is an argument, one for
--     each reading that the code makes. WithClock is therefore left out.
--   * Third-party code is a parameter: the uuid package is the record Uuids (what NewV7 returns and
--     what Parse accepts), the SHA-256 hash of the share store is a function, its random token an
--     optional text. Argon2id is a function as well, and so are the
--     hashes and the HMAC of the standard library, and strings.ToLower, ToUpper and TrimSpace and
--     utf8.RuneCountInString, since they know Unicode,
--     and json.Marshal where the audit store measures an event. A random draw is an argument, none
--     where it fails.
--   * A limit, a lifetime or a bound of type int is a natural number. The code treats a negative
--     page limit or lifetime as 0; a negative MaxDepth or MaxFanOut is outside the model, and so are
--     a negative lifetime of a session, sign count, TOTP period or number of digits. TOTP timestamps
--     and basis points are integers; Unix times stay far from the ends of an int64.
--     The page sums stay below 2 ^ 63 for a limit of ordinary size, and so does the lifetime of a share
--     or a personal access token, of at most 365 days in nanoseconds. The lifetime of a session has no
--     bound: add_seconds wraps as the int64 does.
--   * The data of a notification, a JSON object, is its encoding.
--   * The state of an error is its sentinel, or the reason of a PreconditionError; messages are left
--     out.
--
-- Recursion: Evaluate is recursion on the depth that is left, from max_depth, which is the code's own
-- bound; TotpVerify recurs on the windows that are left; a decimal has ten digits at most, as a uint32
-- has; the loop that draws a letter of a recovery code recurs on the bytes that are drawn. The other
-- loops are structural on a list. The walk through pages of Paging/Walk has one step
-- more than there are elements, and its theorem shows that this is enough.
--
-- What a step of Machine assumes of its surroundings: minted ids are not in use, an organization id
-- has no separator in it, the id of an owner membership can be minted, and a membership is suspended
-- or revoked by transitionMembership only while it is active. Without the last two the theorems of
-- Machine fail; Faults says how.
--
-- The identity store keeps the hashes of a factor's recovery codes and their marks in two lists of one
-- length; on lists of two lengths, which no method makes, the code would panic and the model stops.
-- UpdateFlag, GetFlagByKey and Evaluate follow pointers: a nil one is the error nil_pointer.
--
-- Not modelled: the PostgreSQL stores of tenancy, authz and identity, which are SQL against a server;
-- webauthn.go and the otpauth URI of package identity; RegisteredPrefixes and MustGenerate of ids;
-- the conformance harness and the tests.
pub mod Base
pub mod Ids
pub mod Paging
pub mod Patterns
pub mod Tenancy
pub mod Authz
pub mod Identity
pub mod Flags
pub mod Files
pub mod Audit
pub mod Notify
