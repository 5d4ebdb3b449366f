-- ===== src/Server/Stylesheet.antt =====
-- `scoped_site_stylesheet` of apps/server/src/community.rs around the CSS that
-- crates/storage-sqlite/src/lib.rs has accepted.
use open_soverign_blog.Prelude.{◌++◌, [], if◌then◌else◌, is_empty}
use open_soverign_blog.Text.{Text, codes}

-- what is written in front of the CSS. An identifier is written as the text `site_id`.
abbrev pub scope_start : Text → Text
scope_start site_id =
    codes "@scope (.osb-site-theme[data-site-id=\"" ++ (site_id ++ codes "\"]) {\n")

abbrev pub scope_end : Text
scope_end = codes "\n}\n"

unfoldable pub scoped_site_stylesheet : Text → Text → Text
scoped_site_stylesheet site_id custom_css =
    if is_empty custom_css then [] else scope_start site_id ++ (custom_css ++ scope_end)
