-- ===== src/Appearance/Palettes.antt =====
-- `accentPalettes` of web/src/theme.ts.
mod ForestHarborSlate
mod OrchidCedarFjord
mod JuniperEmberDune
mod SaffronMulberryGraphite
use file_harbor.Appearance.{
  AccentId, ColorScheme, light_scheme, dark_scheme, forest, harbor, slate, orchid, cedar, fjord,
  juniper, ember, dune, saffron, mulberry, graphite,
}
use file_harbor.Appearance.Colors.{FullPaletteScheme, AccentPalette}
use file_harbor.Appearance.Palettes.ForestHarborSlate.{
  forest_light, forest_dark, harbor_light, harbor_dark, slate_light, slate_dark,
}
use file_harbor.Appearance.Palettes.OrchidCedarFjord.{
  orchid_light, orchid_dark, cedar_light, cedar_dark, fjord_light, fjord_dark,
}
use file_harbor.Appearance.Palettes.JuniperEmberDune.{
  juniper_light, juniper_dark, ember_light, ember_dark, dune_light, dune_dark,
}
use file_harbor.Appearance.Palettes.SaffronMulberryGraphite.{
  saffron_light, saffron_dark, mulberry_light, mulberry_dark, graphite_light, graphite_dark,
}

abbrev pub accent_palettes : AccentId → AccentPalette
accent_palettes forest = record { light = forest_light; dark = forest_dark }
accent_palettes harbor = record { light = harbor_light; dark = harbor_dark }
accent_palettes slate = record { light = slate_light; dark = slate_dark }
accent_palettes orchid = record { light = orchid_light; dark = orchid_dark }
accent_palettes cedar = record { light = cedar_light; dark = cedar_dark }
accent_palettes fjord = record { light = fjord_light; dark = fjord_dark }
accent_palettes juniper = record { light = juniper_light; dark = juniper_dark }
accent_palettes ember = record { light = ember_light; dark = ember_dark }
accent_palettes dune = record { light = dune_light; dark = dune_dark }
accent_palettes saffron = record { light = saffron_light; dark = saffron_dark }
accent_palettes mulberry = record { light = mulberry_light; dark = mulberry_dark }
accent_palettes graphite = record { light = graphite_light; dark = graphite_dark }

-- `accentPalettes[id][scheme]`
abbrev pub palette : AccentId → ColorScheme → FullPaletteScheme
palette id light_scheme = (accent_palettes id).light
palette id dark_scheme = (accent_palettes id).dark
