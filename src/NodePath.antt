-- ===== src/NodePath.antt =====
-- The paths of the entry nodes: how `loadRegisterAgentConfig` (src/registry_module_config_parse.c) puts
-- a path together, and how `readRegisteredAgentNS` (src/registry_module_internal.c) takes it apart with
-- `strtok`.
pub mod Laws
use swap_it_registry_module.Prelude.{
  ℕ, List, [], ◌∷◌, ◌++◌, Bytes, codes, length, ◌+◌, ◌==◌, if◌then◌else◌,
}
use swap_it_registry_module.Buffer.{Buffer, calloc, strcpy, strcat}

-- `path`: the buffer has two bytes more than the two texts, for the slash and the terminator.
unfoldable pub module_path : Bytes → Buffer
module_path buf_module =
    let object = codes "Objects/" in
    let path = calloc (length object + length buf_module + 2) in
    strcat (strcat (strcpy path object) buf_module) (codes "/")

-- `bpath`, the `nodePath` of a mapping entry
unfoldable pub node_path : Bytes → Bytes → Buffer
unfolding module_path
node_path buf_module buf_browse_path =
    let path = (module_path buf_module).contents in
    strcat (strcpy (calloc (length buf_browse_path + length path + 1)) path) buf_browse_path

-- A token ends at a slash or at the end of the text; `strtok` gives no empty token.
unfoldable pub token : Bytes → List Bytes
token [] = []
token (c ∷ p) = (c ∷ p) ∷ []

-- The calls of `strtok (_, "/")`, with the bytes `p` of the token that is read.
unfoldable pub split_path : Bytes → Bytes → List Bytes
unfolding token
split_path p [] = token p
split_path p (c ∷ s) =
    let ends = split_path [] s in
    let goes_on = split_path (p ++ c ∷ []) s in if c == b'/' then token p ++ ends else goes_on
