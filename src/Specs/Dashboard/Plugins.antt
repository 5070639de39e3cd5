-- ===== src/Specs/Dashboard/Plugins.antt =====
-- Structs of api/resources/v1alpha1/zz_generated_dashboard_types.go and their JSON.
use signoz_operator.Prelude.{Bool, Dict, List, Option, String, [], ◌∷◌}
use signoz_operator.JsonBody.Value.{Fields}
use signoz_operator.Specs.{
  Number, build, number_entry, object_entry, omit_bool, omit_number_pointer, omit_objects,
  omit_pointer, omit_text, omit_text_map, text_entry,
}
use signoz_operator.Specs.Dashboard.Charts.{
  DashboardAxes, DashboardChartAppearance, dashboard_axes_json, dashboard_chart_appearance_json,
}

pub record DashboardFormatting : Type 0 where
  pub column_units : Dict String
  pub decimal_precision : String
  pub unit : String

unfoldable pub dashboard_formatting_json : DashboardFormatting → Fields
dashboard_formatting_json s = build (
    omit_text_map "columnUnits" s.column_units
    ∷ omit_text "decimalPrecision" s.decimal_precision
    ∷ omit_text "unit" s.unit
    ∷ [])

pub record DashboardHeaderOptions : Type 0 where
  pub hide : Bool

unfoldable pub dashboard_header_options_json : DashboardHeaderOptions → Fields
dashboard_header_options_json s = build (omit_bool "hide" s.hide ∷ [])

pub record DashboardHistogramBuckets : Type 0 where
  pub bucket_count : Option Number
  pub bucket_width : Option Number
  pub merge_all_active_queries : Bool

unfoldable pub dashboard_histogram_buckets_json : DashboardHistogramBuckets → Fields
dashboard_histogram_buckets_json s = build (
    omit_number_pointer "bucketCount" s.bucket_count
    ∷ omit_number_pointer "bucketWidth" s.bucket_width
    ∷ omit_bool "mergeAllActiveQueries" s.merge_all_active_queries
    ∷ [])

pub record DashboardLegend : Type 0 where
  pub custom_colors : Dict String
  pub mode : String
  pub position : String

unfoldable pub dashboard_legend_json : DashboardLegend → Fields
dashboard_legend_json s = build (
    omit_text_map "customColors" s.custom_colors
    ∷ omit_text "mode" s.mode
    ∷ omit_text "position" s.position
    ∷ [])

pub record DashboardPresentation : Type 0 where
  pub background : String
  pub text_align : String
  pub vertical_align : String

unfoldable pub dashboard_presentation_json : DashboardPresentation → Fields
dashboard_presentation_json s = build (
    omit_text "background" s.background
    ∷ omit_text "textAlign" s.text_align
    ∷ omit_text "verticalAlign" s.vertical_align
    ∷ [])

pub record DashboardSelectField : Type 0 where
  pub name : String
  pub description : String
  pub field_context : String
  pub field_data_type : String
  pub signal : String
  pub unit : String

unfoldable pub dashboard_select_field_json : DashboardSelectField → Fields
dashboard_select_field_json s = build (
    text_entry "name" s.name
    ∷ omit_text "description" s.description
    ∷ omit_text "fieldContext" s.field_context
    ∷ omit_text "fieldDataType" s.field_data_type
    ∷ omit_text "signal" s.signal
    ∷ omit_text "unit" s.unit
    ∷ [])

pub record DashboardThreshold : Type 0 where
  pub color : String
  pub value : Number
  pub column_name : String
  pub format : String
  pub label : String
  pub operator : String
  pub unit : String

unfoldable pub dashboard_threshold_json : DashboardThreshold → Fields
dashboard_threshold_json s = build (
    text_entry "color" s.color
    ∷ number_entry "value" s.value
    ∷ omit_text "columnName" s.column_name
    ∷ omit_text "format" s.format
    ∷ omit_text "label" s.label
    ∷ omit_text "operator" s.operator
    ∷ omit_text "unit" s.unit
    ∷ [])

pub record DashboardVisualization : Type 0 where
  pub fill_spans : Bool
  pub stack : String
  pub stacked_bar_chart : Bool
  pub time_preference : String

unfoldable pub dashboard_visualization_json : DashboardVisualization → Fields
dashboard_visualization_json s = build (
    omit_bool "fillSpans" s.fill_spans
    ∷ omit_text "stack" s.stack
    ∷ omit_bool "stackedBarChart" s.stacked_bar_chart
    ∷ omit_text "timePreference" s.time_preference
    ∷ [])

pub record DashboardPluginSpec : Type 0 where
  pub axes : Option DashboardAxes
  pub chart_appearance : Option DashboardChartAppearance
  pub formatting : Option DashboardFormatting
  pub header_options : Option DashboardHeaderOptions
  pub histogram_buckets : Option DashboardHistogramBuckets
  pub legend : Option DashboardLegend
  pub mode : String
  pub presentation : Option DashboardPresentation
  pub select_fields : List DashboardSelectField
  pub text : String
  pub thresholds : List DashboardThreshold
  pub visualization : Option DashboardVisualization

unfoldable pub dashboard_plugin_spec_json : DashboardPluginSpec → Fields
dashboard_plugin_spec_json s = build (
    omit_pointer dashboard_axes_json "axes" s.axes
    ∷ omit_pointer dashboard_chart_appearance_json "chartAppearance" s.chart_appearance
    ∷ omit_pointer dashboard_formatting_json "formatting" s.formatting
    ∷ omit_pointer dashboard_header_options_json "headerOptions" s.header_options
    ∷ omit_pointer dashboard_histogram_buckets_json "histogramBuckets" s.histogram_buckets
    ∷ omit_pointer dashboard_legend_json "legend" s.legend
    ∷ omit_text "mode" s.mode
    ∷ omit_pointer dashboard_presentation_json "presentation" s.presentation
    ∷ omit_objects dashboard_select_field_json "selectFields" s.select_fields
    ∷ omit_text "text" s.text
    ∷ omit_objects dashboard_threshold_json "thresholds" s.thresholds
    ∷ omit_pointer dashboard_visualization_json "visualization" s.visualization
    ∷ [])

pub record DashboardPlugin : Type 0 where
  pub kind : String
  pub spec : DashboardPluginSpec

unfoldable pub dashboard_plugin_json : DashboardPlugin → Fields
dashboard_plugin_json s =
    build (text_entry "kind" s.kind ∷ object_entry dashboard_plugin_spec_json "spec" s.spec ∷ [])
